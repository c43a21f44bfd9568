-- ===== src/Youtube/Duration.antt =====
-- `parseDuration` of apps/api/internal/youtube/client.go. Floating-point numbers are an argument, as
-- the functions on them are: `parse_float` is strconv.ParseFloat for 64 bits, of which `none` is an
-- error, and `scaled amount unit` is time.Duration(amount * float64(unit)) as its bits, of which the
-- last 64 count. Durations are int64 numbers here, whose sums wrap around.
use stream_analysis_tools.Base.{
  ℕ, ◌+◌, ◌-◌, ◌^◌, ◌%◌, ltb_ℤ, ℤ, pos, negsuc, Bool, true, false, ◌&&◌, List, [], ◌∷◌, ◌++◌,
  Option, none, some, Bytes, ltb, leb, ◌==◌, if◌then◌else◌, minute, second,
}
use stream_analysis_tools.Errors.{Result, ok, err, ◌>>=◌, other}

abbrev pub is_digit : ℕ → Bool
is_digit c = leb 48 c && leb c 57

abbrev into_first : ℕ → Bytes × Bytes → Bytes × Bytes
into_first c (s, t) = (c ∷ s, t)

-- `\d*`, as much as there is, and the rest
unfoldable pub digit_run : Bytes → Bytes × Bytes
digit_run [] = ([], [])
digit_run (c ∷ s) = let rest = digit_run s in if is_digit c then into_first c rest else ([], c ∷ s)

-- A run of digits before the letter of a unit; otherwise the group is empty and nothing is read.
abbrev before_letter : ℕ → Bytes → Bytes × Bytes → Bytes × Bytes
before_letter letter text ([], rest) = ([], text)
before_letter letter text (c ∷ s, []) = ([], text)
before_letter letter text (c ∷ s, d ∷ rest) = if d == letter then (c ∷ s, rest) else ([], text)

-- `(?:(\d+)H)?` for the letter of a unit
unfoldable pub unit_group : ℕ → Bytes → Bytes × Bytes
unfolding digit_run
unit_group letter text = before_letter letter text (digit_run text)

-- `\.\d+`, if it is there
abbrev fraction : Bytes → Bytes × Bytes → Bytes × Bytes
fraction text ([], rest) = ([], text)
fraction text (c ∷ s, rest) = (46 ∷ c ∷ s, rest)

unfoldable pub fraction_of : Bytes → Bytes × Bytes
unfolding digit_run
fraction_of [] = ([], [])
fraction_of (c ∷ s) = let f = fraction (c ∷ s) (digit_run s) in if c == 46 then f else ([], c ∷ s)

abbrev before_second : Bytes → Bytes → Bytes × Bytes → Bytes × Bytes
before_second text whole (part, []) = ([], text)
before_second text whole (part, d ∷ rest) = if d == 83 then (whole ++ part, rest) else ([], text)

abbrev seconds_of : Bytes → Bytes × Bytes → Bytes × Bytes
seconds_of text ([], rest) = ([], text)
seconds_of text (c ∷ s, rest) = before_second text (c ∷ s) (fraction_of rest)

-- `(?:(\d+(?:\.\d+)?)S)?`
unfoldable pub second_group : Bytes → Bytes × Bytes
unfolding digit_run fraction_of
second_group text = seconds_of text (digit_run text)

abbrev only_at_end : List Bytes → Bytes → Option (List Bytes)
only_at_end groups [] = some groups
only_at_end groups (c ∷ s) = none

abbrev times_of : Bytes → Bytes → Option (List Bytes)
times_of days text =
    let (hours, after_hours) = unit_group 72 text in
    let (minutes, after_minutes) = unit_group 77 after_hours in
    let (seconds, after_seconds) = second_group after_minutes in
    only_at_end (days ∷ hours ∷ minutes ∷ seconds ∷ []) after_seconds

abbrev after_days : Bytes × Bytes → Option (List Bytes)
after_days (days, []) = some (days ∷ [] ∷ [] ∷ [] ∷ [])
after_days (days, c ∷ text) = let times = times_of days text in if c == 84 then times else none

-- `iso8601DurationPattern.FindStringSubmatch`, without the whole match
unfoldable pub match_duration : Bytes → Option (List Bytes)
unfolding unit_group second_group
match_duration [] = none
match_duration (c ∷ s) = let days = after_days (unit_group 68 s) in if c == 80 then days else none

-- The int64 number of these bits.
unfoldable pub int64 : ℕ → ℤ
int64 bits =
    if ltb (bits % 2 ^ 64) (2 ^ 63)
    then pos (bits % 2 ^ 64)
    else negsuc (2 ^ 64 - 1 - bits % 2 ^ 64)

-- The int64 sum of a number and one that is not negative; it wraps around only from a number that is
-- not negative.
abbrev pub add_int64 : ℤ → ℕ → ℤ
add_int64 (pos n) c = int64 (n + c)
add_int64 (negsuc n) c = if ltb n c then pos (c - n - 1) else negsuc (n - c)

abbrev pub max_duration : ℕ
max_duration = 2 ^ 63 - 1

-- []time.Duration{24 * time.Hour, time.Hour, time.Minute, time.Second}
abbrev pub units : List ℕ
units = 86_400_000_000_000 ∷ 3_600_000_000_000 ∷ minute ∷ second ∷ []

unfoldable pub with_units : List Bytes → List ℕ → List (Bytes × ℕ)
with_units [] us = []
with_units (raw ∷ raws) [] = []
with_units (raw ∷ raws) (u ∷ us) = (raw, u) ∷ with_units raws us

-- strings.Join(matches[1:], "")
unfoldable pub join : List Bytes → Bytes
join [] = []
join (s ∷ ss) = s ++ join ss

abbrev pub is_blank : Bytes → Bool
is_blank [] = true
is_blank (c ∷ s) = false

module _ {F : Type 0} (parse_float : Bytes → Option F) (is_negative : F → Bool)
    (scaled : F → ℕ → ℕ) where
  -- The duration of one part that is not blank: ParseFloat, `amount < 0` and the product.
  abbrev pub component_of : ℕ → Option F → Result ℤ
  component_of unit none = err (other "invalid ISO 8601 duration")
  component_of unit (some amount) =
      if is_negative amount
      then err (other "invalid ISO 8601 duration")
      else ok (int64 (scaled amount unit))

  -- component < 0 || total > time.Duration(1<<63-1)-component
  abbrev pub added : ℤ → ℤ → Result ℤ
  added total (negsuc n) = err (other "ISO 8601 duration overflows")
  added total (pos c) =
      if ltb_ℤ (pos (max_duration - c)) total
      then err (other "ISO 8601 duration overflows")
      else ok (add_int64 total c)

  -- The loop.
  unfoldable pub add_parts : ℤ → List (Bytes × ℕ) → Result ℤ
  add_parts total [] = ok total
  add_parts total ((raw, unit) ∷ parts) =
      if is_blank raw
      then add_parts total parts
      else component_of unit (parse_float raw) >>= λ c. added total c >>= λ t. add_parts t parts

  abbrev pub some_duration : Result ℤ → Result (Option ℤ)
  some_duration (ok d) = ok (some d)
  some_duration (err e) = err e

  abbrev pub parsed : Option (List Bytes) → Result (Option ℤ)
  parsed none = err (other "invalid ISO 8601 duration")
  parsed (some groups) =
      if is_blank (join groups)
      then err (other "invalid ISO 8601 duration")
      else some_duration (add_parts (pos 0) (with_units groups units))

  -- `parseDuration`
  unfoldable pub parse_duration : Bytes → Result (Option ℤ)
  unfolding add_parts
  parse_duration value = if is_blank value then ok none else parsed (match_duration value)
