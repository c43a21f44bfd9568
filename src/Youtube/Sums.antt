-- ===== src/Youtube/Sums.antt =====
-- The loop of `parseDuration` of apps/api/internal/youtube/client.go against the sum of the parts.
use stream_analysis_tools.Base.{
  ℕ, ◌+◌, ◌-◌, ◌^◌, ◌%◌, ◌≤◌, ltb_ℤ, ℤ, pos, negsuc, ◌≡◌, refl, ap, ◌∙◌, Bool, true, false, List,
  [], ◌∷◌, Option, none, some, Bytes, arith, leb, ltb, if◌then◌else◌, ◌<◌, Bool-cases, inl, inr,
}
use stream_analysis_tools.Errors.{Result, ok, err, ◌>>=◌}
use stream_analysis_tools.Youtube.Duration.{
  max_duration, int64, component_of, added, add_parts, is_blank,
}

int64_bound : (bits c : ℕ) → int64 bits ≡ pos c → c ≤ max_duration
unfolding int64
int64_bound bits c e = ground arith

int64_small : (n : ℕ) → n ≤ max_duration → int64 n ≡ pos n
unfolding int64
int64_small n h =
    let same : n % 2 ^ 64 ≡ n = ground arith in
    let low : ltb n (2 ^ 63) ≡ true = ground arith in rw same (rw low refl)

-- A sum as a time.Duration, if it is one.
abbrev pub fitting : Option ℕ → Option ℤ
fitting none = none
fitting (some n) = if leb n max_duration then some (pos n) else none

abbrev pub value_of : Result ℤ → Option ℤ
value_of (ok n) = some n
value_of (err e) = none

module _ {F : Type 0} (parse_float : Bytes → Option F) (is_negative : F → Bool)
    (scaled : F → ℕ → ℕ) where
  abbrev plus : Result ℤ → Option ℕ → Option ℕ
  plus (ok (pos c)) (some n) = some (c + n)
  plus _ _ = none

  -- The sum of the parts' durations, without a bound; `none` if one of them is no duration.
  unfoldable pub sum_of_parts : List (Bytes × ℕ) → Option ℕ
  sum_of_parts [] = some 0
  sum_of_parts ((raw, unit) ∷ parts) =
      let rest = sum_of_parts parts in
      if is_blank raw
      then rest
      else plus (component_of parse_float is_negative scaled unit (parse_float raw)) rest

  abbrev above : ℕ → Option ℕ → Option ℕ
  above total none = none
  above total (some n) = some (total + n)

  component_bound :
      (unit c : ℕ) (o : Option F)
      → component_of parse_float is_negative scaled unit o ≡ ok (pos c)
      → c ≤ max_duration
  component_bound unit c none e = absurd (cc)
  component_bound unit c (some amount) e = elim (Bool-cases (is_negative amount)) [
    | inl n ↦ absurd (negative n e)
    | inr n ↦ int64_bound (scaled amount unit) c (counted n e)
  ]
    where
      negative :
          is_negative amount ≡ true
          → component_of parse_float is_negative scaled unit (some amount) ≡ ok (pos c)
          → ⊥
      negative n = rw n (λ e. cc)

      counted :
          is_negative amount ≡ false
          → component_of parse_float is_negative scaled unit (some amount) ≡ ok (pos c)
          → int64 (scaled amount unit) ≡ pos c
      counted n = rw n (λ e. ground arith)

  above-plus :
      (total c : ℕ) (rest : Option ℕ)
      → above (total + c) rest ≡ above total (plus (ok (pos c)) rest)
  above-plus total c none = refl
  above-plus total c (some n) = ap some (omega arith)

  too_much :
      (total c : ℕ) (rest : Option ℕ)
      → max_duration - c < total
      → c ≤ max_duration
      → none ≡ fitting (above total (plus (ok (pos c)) rest))
  too_much total c none h b = refl
  too_much total c (some n) h b =
      let more : leb (total + (c + n)) max_duration ≡ false = ground (arith, h, b) in rw more refl

  stepped :
      (r : Result ℤ) (total : ℕ) (parts : List (Bytes × ℕ))
      → total ≤ max_duration
      → ((c : ℕ) → r ≡ ok (pos c) → c ≤ max_duration)
      → ((t : ℕ)
          → t ≤ max_duration
          → value_of (add_parts parse_float is_negative scaled (pos t) parts)
            ≡ fitting (above t (sum_of_parts parts)))
      → value_of (
          r >>= λ c. added parse_float is_negative scaled (pos total) c >>= λ t.
          add_parts parse_float is_negative scaled t parts)
        ≡ fitting (above total (plus r (sum_of_parts parts)))
  stepped (err e) total parts h b rest = refl
  stepped (ok (negsuc n)) total parts h b rest = refl
  stepped (ok (pos c)) total parts h b rest =
      elim (Bool-cases (ltb_ℤ (pos (max_duration - c)) (pos total))) [
        | inl e ↦
            let over : max_duration - c < total = ground (arith, e) in
            rw e (too_much total c (sum_of_parts parts) over (b c refl))
        | inr e ↦
            let fits : total + c ≤ max_duration = ground (arith, e, b c refl) in
            rw e (
              rw (int64_small (total + c) fits)
                (rest (total + c) fits ∙ ap fitting (above-plus total c (sum_of_parts parts))))
      ]

  add_parts-above :
      (parts : List (Bytes × ℕ)) (total : ℕ)
      → total ≤ max_duration
      → value_of (add_parts parse_float is_negative scaled (pos total) parts)
        ≡ fitting (above total (sum_of_parts parts))
  unfolding add_parts sum_of_parts
  add_parts-above [] total h = ground (arith, h)
  add_parts-above ((raw, unit) ∷ parts) total h = elim (Bool-cases (is_blank raw)) [
    | inl e ↦ rw e (add_parts-above parts total h)
    | inr e ↦ rw e (
        stepped (component_of parse_float is_negative scaled unit (parse_float raw)) total parts h
          (λ c. component_bound unit c (parse_float raw)) (add_parts-above parts))
  ]

  fitting_zero : (o : Option ℕ) → fitting (above 0 o) ≡ fitting o
  fitting_zero none = refl
  fitting_zero (some n) = ap (λ k. fitting (some k)) (omega arith)

  -- The loop of `parseDuration` answers the sum of the parts' durations if that is at most 2^63 - 1
  -- nanoseconds, and an error if it is more or a part is no duration; the test before each addition
  -- loses nothing and lets nothing overflow.
  pub add_parts_sum :
      (parts : List (Bytes × ℕ))
      → value_of (add_parts parse_float is_negative scaled (pos 0) parts)
        ≡ fitting (sum_of_parts parts)
  add_parts_sum parts = add_parts-above parts 0 (omega arith) ∙ fitting_zero (sum_of_parts parts)
