-- ===== src/Samples.antt =====
-- A package of identifiers' texts for the witnesses: the digits of a number to base 16, the lowest
-- first, as the letters from `a` on.
use stream_analysis_tools.Base.{
  ℕ, zero, suc, ◌+◌, ◌-◌, ◌*◌, ◌/◌, ◌%◌, ◌^◌, ◌≤◌, ◌<◌, ◌≡◌, ◌≢◌, ap, true, false, [], ◌∷◌, Option,
  some, All, arith, Bytes, length, ◌==◌, if◌then◌else◌, Bool-cases, inl, inr,
}
use stream_analysis_tools.Collections.Cursor.{UuidText}

letters : ℕ → ℕ → Bytes
letters zero n = []
letters (suc rounds) n =
    let rest = letters rounds (n / 16) in (97 + n % 16) ∷ (if n / 16 == 0 then [] else rest)

value : Bytes → ℕ
value [] = 0
value (c ∷ s) = (c - 97) + 16 * value s

unfoldable pub sample_string : ℕ → Bytes
unfolding letters
sample_string n = letters (suc n) n

unfoldable pub sample_parse : Bytes → Option ℕ
unfolding value
sample_parse s = some (value s)

value-letters : (rounds n : ℕ) → n < rounds → value (letters rounds n) ≡ n
unfolding letters value
value-letters zero n h = absurd (omega (arith, h))
value-letters (suc rounds) n h = elim (Bool-cases (n / 16 == 0)) [
  | inl e ↦ rw e (ground arith)
  | inr e ↦ rw e (ground (arith, value-letters rounds (n / 16)))
]

letters_short : (rounds n k : ℕ) → n < 16 ^ suc k → length (letters rounds n) ≤ suc k
unfolding letters
letters_short zero n k h = omega arith
letters_short (suc rounds) n zero h =
    let last : (n / 16 == 0) ≡ true = ground (arith, h) in rw last (omega arith)
letters_short (suc rounds) n (suc k) h = elim (Bool-cases (n / 16 == 0)) [
  | inl e ↦ rw e (omega arith)
  | inr e ↦ rw e (omega (arith, letters_short rounds (n / 16) k (omega (arith, h))))
]

abbrev Letter : ℕ → Type 0
Letter c = (97 ≤ c) × (c ≤ 112)

letters-Letter : (rounds n : ℕ) → All Letter (letters rounds n)
unfolding letters
letters-Letter zero n = tt
letters-Letter (suc rounds) n = elim (Bool-cases (n / 16 == 0)) [
  | inl e ↦ rw e ((omega arith, omega arith), tt)
  | inr e ↦ rw e ((omega arith, omega arith), letters-Letter rounds (n / 16))
]

pub sample_read_back : (n : ℕ) → sample_parse (sample_string n) ≡ some n
unfolding sample_parse sample_string
sample_read_back n = ap some (value-letters (suc n) n (omega arith))

plain_letters : (s : Bytes) → All Letter s → All (λ c. (c < 128) × ((c == 58) ≡ false)) s
plain_letters [] h = tt
plain_letters (c ∷ s) h = ((omega (arith, h.0), ground (arith, h.0)), plain_letters s h.1)

segment_letters : (s : Bytes) → All Letter s → All (λ c. (c == 47) ≡ false) s
segment_letters [] h = tt
segment_letters (c ∷ s) h = (ground (arith, h.0), segment_letters s h.1)

pub sample_segment : (n : ℕ) → All (λ c. (c == 47) ≡ false) (sample_string n)
unfolding sample_string
sample_segment n = segment_letters (letters (suc n) n) (letters-Letter (suc n) n)

pub sample_not_empty : (n : ℕ) → sample_string n ≢ []
unfolding sample_string letters
sample_not_empty n e = cc

pub sample_text : UuidText sample_string sample_parse
unfolding sample_string
sample_text = record {
  read_back = λ id h. sample_read_back id;
  short = λ id h. omega (arith, letters_short (suc id) id 31 h);
  plain = λ id h. plain_letters (letters (suc id) id) (letters-Letter (suc id) id);
}
