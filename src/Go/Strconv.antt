-- ===== src/Go/Strconv.antt =====
-- `strconv.FormatInt` and `strconv.ParseInt` of strconv, for base 10 and 64 bits.
use mathlib.Core.List.{cons-ne-nil}
use native.Mathlib.Nat.{pow-suc}
use stream_analysis_tools.Base.{
  ℕ, zero, suc, ◌+◌, ◌-◌, ◌*◌, ◌/◌, ◌%◌, ◌^◌, ◌≤◌, ◌<◌, ℤ, pos, negsuc, sub_ℕ, ◌≡◌, refl, ap, subst,
  ◌∙◌, ◌≢◌, Bool, true, false, Bool-cases, inl, inr, ◌||◌, [], ◌∷◌, Option, none, some, All, arith,
  Bytes, length, ◌==◌, ltb, leb, if◌then◌else◌,
}

-- The loop that writes the digits of a number from the last one on; `rounds` bounds their number.
unfoldable pub digits : ℕ → ℕ → Bytes → Bytes
digits zero n out = out
digits (suc rounds) n out =
    let written = (48 + n % 10) ∷ out in
    let rest = digits rounds (n / 10) written in if n / 10 == 0 then written else rest

-- A number of 64 bits has at most twenty digits.
unfoldable pub format_uint : ℕ → Bytes
unfolding digits
format_uint n = digits 20 n []

-- `FormatInt(n, 10)`
unfoldable pub format_int : ℤ → Bytes
unfolding format_uint
format_int (pos n) = format_uint n
format_int (negsuc n) = 45 ∷ format_uint (suc n)

-- The loop of `ParseUint`: a digit is refused where the number would pass 2^64 - 1.
unfoldable pub scan_digits : Bytes → ℕ → Option ℕ
scan_digits [] n = some n
scan_digits (c ∷ s) n =
    let rest = scan_digits s (n * 10 + (c - 48)) in
    if ltb c 48 || ltb 57 c
    then none
    else if leb (18_446_744_073_709_551_615 / 10 + 1) n
    then none
    else if ltb ((n * 10 + (c - 48)) % 2 ^ 64) (n * 10)
    then none
    else rest

unfoldable pub parse_uint : Bytes → Option ℕ
unfolding scan_digits
parse_uint [] = none
parse_uint (c ∷ s) = scan_digits (c ∷ s) 0

-- `un >= cutoff` and `un > cutoff`
abbrev signed : Bool → Option ℕ → Option ℤ
signed negative none = none
signed false (some n) = if leb (2 ^ 63) n then none else some (pos n)
signed true (some n) = if ltb (2 ^ 63) n then none else some (sub_ℕ 0 n)

-- `ParseInt(s, 10, 64)`
unfoldable pub parse_int : Bytes → Option ℤ
unfolding parse_uint
parse_int [] = none
parse_int (c ∷ s) =
    if c == 43
    then signed false (parse_uint s)
    else if c == 45
    then signed true (parse_uint s)
    else signed false (parse_uint (c ∷ s))

-- What 64 bits with a sign hold.
abbrev pub IsInt64 : ℤ → Type 0
IsInt64 (pos n) = n < 2 ^ 63
IsInt64 (negsuc n) = n < 2 ^ 63

scan_last :
    (n : ℕ) (out : Bytes)
    → n < 2 ^ 64
    → scan_digits ((48 + n % 10) ∷ out) (n / 10) ≡ scan_digits out n
unfolding scan_digits
scan_last n out h = ground arith

one_digit :
    (n : ℕ) (out : Bytes)
    → n < 2 ^ 64
    → n / 10 ≡ 0
    → scan_digits ((48 + n % 10) ∷ out) 0 ≡ scan_digits out n
one_digit n out fits top =
    subst (λ m. scan_digits ((48 + n % 10) ∷ out) m ≡ scan_digits out n) top (scan_last n out fits)

scan-digits :
    (rounds n : ℕ) (out : Bytes)
    → n < 2 ^ 64
    → n < 10 ^ suc rounds
    → scan_digits (digits (suc rounds) n out) 0 ≡ scan_digits out n
unfolding digits
scan-digits zero n out fits few =
    let top : n / 10 ≡ 0 = omega (arith, few) in
    let last : (n / 10 == 0) ≡ true = ground arith in rw last (one_digit n out fits top)
scan-digits (suc k) n out fits few = elim (Bool-cases (n / 10 == 0)) [
  | inl last ↦ rw last (one_digit n out fits (ground arith))
  | inr more ↦ rw more (
      scan-digits k (n / 10) _ (omega (arith, fits)) (omega (arith, few, pow-suc 10 (suc k)))
      ∙ scan_last n out fits)
]

digits-ne-nil : (rounds n : ℕ) (out : Bytes) → out ≢ [] → digits rounds n out ≢ []
unfolding digits
digits-ne-nil zero n out h = h
digits-ne-nil (suc rounds) n out h = elim (Bool-cases (n / 10 == 0)) [
  | inl last ↦ rw last (cons-ne-nil _ _)
  | inr more ↦ rw more (digits-ne-nil rounds (n / 10) _ (cons-ne-nil _ _))
]

format_uint-ne-nil : (n : ℕ) → format_uint n ≢ []
unfolding format_uint digits
format_uint-ne-nil n = elim (Bool-cases (n / 10 == 0)) [
  | inl last ↦ rw last (cons-ne-nil _ _)
  | inr more ↦ rw more (digits-ne-nil 19 (n / 10) _ (cons-ne-nil _ _))
]

parse_uint-scan : (s : Bytes) → s ≢ [] → parse_uint s ≡ scan_digits s 0
unfolding parse_uint
parse_uint-scan [] h = absurd (h refl)
parse_uint-scan (c ∷ s) h = refl

parse_uint-format_uint : (n : ℕ) → n < 2 ^ 64 → parse_uint (format_uint n) ≡ some n
unfolding format_uint scan_digits
parse_uint-format_uint n h =
    parse_uint-scan (format_uint n) (format_uint-ne-nil n)
    ∙ scan-digits 19 n [] h (omega (arith, h))

-- The digits of a number stand among the digits and nothing else.
abbrev pub IsDigit : ℕ → Type 0
IsDigit c = (48 ≤ c) × (c ≤ 57)

digits-IsDigit : (rounds n : ℕ) (out : Bytes) → All IsDigit out → All IsDigit (digits rounds n out)
unfolding digits
digits-IsDigit zero n out h = h
digits-IsDigit (suc rounds) n out h =
    let one : IsDigit (48 + n % 10) = (omega arith, omega arith) in
    elim (Bool-cases (n / 10 == 0)) [
      | inl last ↦ rw last (one, h)
      | inr more ↦ rw more (digits-IsDigit rounds (n / 10) _ (one, h))
    ]

pub format_uint-IsDigit : (n : ℕ) → All IsDigit (format_uint n)
unfolding format_uint
format_uint-IsDigit n = digits-IsDigit 20 n [] tt

length-digits : (rounds n : ℕ) (out : Bytes) → length (digits rounds n out) ≤ rounds + length out
unfolding digits
length-digits zero n out = omega arith
length-digits (suc rounds) n out = elim (Bool-cases (n / 10 == 0)) [
  | inl last ↦ rw last (omega arith)
  | inr more ↦ rw more (omega (arith, length-digits rounds (n / 10) ((48 + n % 10) ∷ out)))
]

plain : (s : Bytes) → All IsDigit s → All (λ c. (c < 128) × ((c == 58) ≡ false)) s
plain [] h = tt
plain (c ∷ s) h = ((omega (arith, h.0.1), ground (arith, h.0)), plain s h.1)

pub length-format_int : (n : ℤ) → length (format_int n) ≤ 21
unfolding format_int format_uint
length-format_int (pos n) = omega (arith, length-digits 20 n [])
length-format_int (negsuc n) = omega (arith, length-digits 20 (suc n) [])

-- A sign or digits: bytes of ASCII, none of them a colon.
pub format_int_plain : (n : ℤ) → All (λ c. (c < 128) × ((c == 58) ≡ false)) (format_int n)
unfolding format_int
format_int_plain (pos n) = plain (format_uint n) (format_uint-IsDigit n)
format_int_plain (negsuc n) =
    ((omega arith, refl), plain (format_uint (suc n)) (format_uint-IsDigit (suc n)))

-- Text of digits that begins with a digit has no sign.
unsigned : (s : Bytes) → s ≢ [] → All IsDigit s → parse_int s ≡ signed false (parse_uint s)
unfolding parse_int
unsigned [] h d = absurd (h refl)
unsigned (c ∷ s) h d = ground (arith, d.0)

-- Every int64 is read back from its decimal print.
pub parse_int-format_int : (n : ℤ) → IsInt64 n → parse_int (format_int n) ≡ some n
unfolding format_int
parse_int-format_int (pos n) h =
    unsigned (format_uint n) (format_uint-ne-nil n) (format_uint-IsDigit n)
    ∙ ap (signed false) (parse_uint-format_uint n (omega (arith, h)))
    ∙ ground (arith, h)
parse_int-format_int (negsuc n) h =
    unfold parse_int in
    ap (signed true) (parse_uint-format_uint (suc n) (omega (arith, h))) ∙ ground (arith, h)
