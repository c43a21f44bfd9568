-- ===== src/Go/Base64.antt =====
-- `base64.RawURLEncoding` of encoding/base64: the alphabet of URLs, without padding. Decoding skips
-- carriage returns and line feeds, and ignores the bits that the last letter has too many.
use stream_analysis_tools.Base.{
  ℕ, ◌+◌, ◌-◌, ◌*◌, ◌/◌, ◌%◌, ◌≤◌, ◌<◌, ◌≡◌, refl, ap, ◌∙◌, ◌≢◌, ◌&&◌, ◌||◌, List, [], ◌∷◌, Option,
  none, some, All, arith, Bytes, length, ◌==◌, ltb, leb, if◌then◌else◌,
}

-- The letter of six bits.
unfoldable pub letter : ℕ → ℕ
letter n =
    if ltb n 26
    then 65 + n
    else if ltb n 52
    then 71 + n
    else if ltb n 62
    then n - 4
    else if n == 62
    then 45
    else 95

unfoldable pub encode : Bytes → Bytes
unfolding letter
encode [] = []
encode (a ∷ []) = letter (a / 4) ∷ letter (a % 4 * 16) ∷ []
encode (a ∷ b ∷ []) = letter (a / 4) ∷ letter (a % 4 * 16 + b / 16) ∷ letter (b % 16 * 4) ∷ []
encode (a ∷ b ∷ c ∷ s) =
    letter (a / 4)
    ∷ letter (a % 4 * 16 + b / 16)
    ∷ letter (b % 16 * 4 + c / 64)
    ∷ letter (c % 64)
    ∷ encode s

-- The six bits of a letter.
unfoldable pub six_bits : ℕ → Option ℕ
six_bits c =
    if leb 65 c && leb c 90
    then some (c - 65)
    else if leb 97 c && leb c 122
    then some (c - 71)
    else if leb 48 c && leb c 57
    then some (c + 4)
    else if c == 45
    then some 62
    else if c == 95
    then some 63
    else none

abbrev consed : Option ℕ → Option (List ℕ) → Option (List ℕ)
consed (some n) (some ns) = some (n ∷ ns)
consed _ _ = none

-- The six bits of all letters but line breaks.
unfoldable pub values : Bytes → Option (List ℕ)
unfolding six_bits
values [] = some []
values (c ∷ s) =
    let rest = values s in if c == 10 || c == 13 then rest else consed (six_bits c) rest

abbrev prefixed : Bytes → Option Bytes → Option Bytes
prefixed s none = none
prefixed (a ∷ b ∷ c ∷ []) (some s) = some (a ∷ b ∷ c ∷ s)
prefixed _ (some s) = none

-- Four letters stand for three bytes; one letter alone is an error.
unfoldable pub quanta : List ℕ → Option Bytes
quanta [] = some []
quanta (a ∷ []) = none
quanta (a ∷ b ∷ []) = some ((a * 4 + b / 16) ∷ [])
quanta (a ∷ b ∷ c ∷ []) = some ((a * 4 + b / 16) ∷ (b % 16 * 16 + c / 4) ∷ [])
quanta (a ∷ b ∷ c ∷ d ∷ s) =
    prefixed ((a * 4 + b / 16) ∷ (b % 16 * 16 + c / 4) ∷ (c % 4 * 64 + d) ∷ []) (quanta s)

abbrev joined : Option (List ℕ) → Option Bytes
joined none = none
joined (some ns) = quanta ns

unfoldable pub decode : Bytes → Option Bytes
unfolding values quanta
decode s = joined (values s)

abbrev pub IsByte : ℕ → Type 0
IsByte c = c < 256

-- A letter is read back.
letter_lem : (n : ℕ) (s : Bytes) → n < 64 → values (letter n ∷ s) ≡ consed (some n) (values s)
unfolding values letter six_bits
letter_lem n s h = ground arith

-- The six bits that `encode` writes.
sextets : Bytes → List ℕ
sextets [] = []
sextets (a ∷ []) = (a / 4) ∷ (a % 4 * 16) ∷ []
sextets (a ∷ b ∷ []) = (a / 4) ∷ (a % 4 * 16 + b / 16) ∷ (b % 16 * 4) ∷ []
sextets (a ∷ b ∷ c ∷ s) =
    (a / 4) ∷ (a % 4 * 16 + b / 16) ∷ (b % 16 * 4 + c / 64) ∷ (c % 64) ∷ sextets s

-- A letter in front of letters that are read.
read_letter :
    (n : ℕ) (s : Bytes) (ns : List ℕ)
    → n < 64
    → values s ≡ some ns
    → values (letter n ∷ s) ≡ some (n ∷ ns)
read_letter n s ns h e = letter_lem n s h ∙ ap (consed (some n)) e

values-encode : (s : Bytes) → All IsByte s → values (encode s) ≡ some (sextets s)
unfolding encode sextets
values-encode [] h = unfold values in refl
values-encode (a ∷ []) (ha, _) =
    read_letter _ _ _ (omega (arith, ha))
      (read_letter _ _ _ (omega (arith, ha)) (unfold values in refl))
values-encode (a ∷ b ∷ []) (ha, (hb, _)) = read_letter _ _ _ (omega (arith, ha)) (
    read_letter _ _ _ (omega (arith, ha, hb))
      (read_letter _ _ _ (omega (arith, hb)) (unfold values in refl)))
values-encode (a ∷ b ∷ c ∷ s) (ha, (hb, (hc, h))) = read_letter _ _ _ (omega (arith, ha)) (
    read_letter _ _ _ (omega (arith, ha, hb)) (
      read_letter _ _ _ (omega (arith, hb, hc))
        (read_letter _ _ _ (omega (arith, hc)) (values-encode s h))))

quanta-sextets : (s : Bytes) → All IsByte s → quanta (sextets s) ≡ some s
unfolding sextets quanta
quanta-sextets [] h = refl
quanta-sextets (a ∷ []) (ha, _) = ap (λ n. some (n ∷ [])) (omega (arith, ha))
quanta-sextets (a ∷ b ∷ []) (ha, (hb, _)) =
    let first : a / 4 * 4 + (a % 4 * 16 + b / 16) / 16 ≡ a = omega (arith, ha, hb) in
    let second : (a % 4 * 16 + b / 16) % 16 * 16 + b % 16 * 4 / 4 ≡ b = omega (arith, ha, hb) in
    rw first (rw second refl)
quanta-sextets (a ∷ b ∷ c ∷ s) (ha, (hb, (hc, h))) =
    let first : a / 4 * 4 + (a % 4 * 16 + b / 16) / 16 ≡ a = omega (arith, ha, hb) in
    let second : (a % 4 * 16 + b / 16) % 16 * 16 + (b % 16 * 4 + c / 64) / 4 ≡ b =
      omega (arith, ha, hb, hc) in
    let third : (b % 16 * 4 + c / 64) % 4 * 64 + c % 64 ≡ c = omega (arith, hb, hc) in
    rw first (rw second (rw third (rw (quanta-sextets s h) refl)))

-- Every text of bytes is read back from its encoding.
pub decode-encode : (s : Bytes) → All IsByte s → decode (encode s) ≡ some s
unfolding decode
decode-encode s h = rw (values-encode s h) (quanta-sextets s h)

-- Four letters for three bytes.
pub length-encode : (s : Bytes) → length (encode s) * 3 ≤ length s * 4 + 4
unfolding encode
length-encode [] = omega arith
length-encode (a ∷ []) = omega arith
length-encode (a ∷ b ∷ []) = omega arith
length-encode (a ∷ b ∷ c ∷ s) = omega (arith, length-encode s)

pub encode-ne-nil : (s : Bytes) → s ≢ [] → encode s ≢ []
unfolding encode
encode-ne-nil [] h = absurd (h refl)
encode-ne-nil (a ∷ []) h = λ e. cc
encode-ne-nil (a ∷ b ∷ []) h = λ e. cc
encode-ne-nil (a ∷ b ∷ c ∷ s) h = λ e. cc
