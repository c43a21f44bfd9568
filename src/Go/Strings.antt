-- ===== src/Go/Strings.antt =====
-- `strings.Split` by one byte, `strings.TrimSpace`, `strings.HasSuffix` of strings and
-- `utf8.RuneCountInString` of unicode/utf8.
use stream_analysis_tools.Base.{
  ℕ, zero, suc, ◌≡◌, refl, Bool, true, false, not, ◌&&◌, ◌||◌, List, [], ◌∷◌, ◌++◌, All, arith,
  Bytes, length, drop, ◌==◌, leb, bytes_eq, if◌then◌else◌,
}

abbrev into_first : ℕ → List Bytes → List Bytes
into_first c [] = (c ∷ []) ∷ []
into_first c (part ∷ parts) = (c ∷ part) ∷ parts

-- `strings.Split(s, sep)` for a separator of one byte
unfoldable pub split : ℕ → Bytes → List Bytes
split sep [] = [] ∷ []
split sep (c ∷ s) = let rest = split sep s in if c == sep then [] ∷ rest else into_first c rest

-- The bytes of the white space character that a text starts with: 0 if it starts with none.
unfoldable pub space_width : Bytes → ℕ
space_width [] = 0
space_width (c ∷ []) = if leb 9 c && leb c 13 || c == 32 then 1 else 0
space_width (c ∷ d ∷ []) =
    if leb 9 c && leb c 13 || c == 32
    then 1
    else if c == 194 && (d == 133 || d == 160)
    then 2
    else 0
space_width (c ∷ d ∷ e ∷ s) =
    if leb 9 c && leb c 13 || c == 32
    then 1
    else if c == 194 && (d == 133 || d == 160)
    then 2
    else if c == 225 && d == 154 && e == 128
        || c == 226
          && (d == 128 && (leb 128 e && leb e 138 || e == 168 || e == 169 || e == 175)
              || d == 129 && e == 159)
        || c == 227 && d == 128 && e == 128
    then 3
    else 0

-- The same for the end of a text, which is given backwards.
unfoldable pub last_space_width : Bytes → ℕ
last_space_width [] = 0
last_space_width (c ∷ []) = if leb 9 c && leb c 13 || c == 32 then 1 else 0
last_space_width (d ∷ c ∷ []) =
    if leb 9 d && leb d 13 || d == 32
    then 1
    else if c == 194 && (d == 133 || d == 160)
    then 2
    else 0
last_space_width (e ∷ d ∷ c ∷ s) =
    if leb 9 e && leb e 13 || e == 32
    then 1
    else if d == 194 && (e == 133 || e == 160)
    then 2
    else if c == 225 && d == 154 && e == 128
        || c == 226
          && (d == 128 && (leb 128 e && leb e 138 || e == 168 || e == 169 || e == 175)
              || d == 129 && e == 159)
        || c == 227 && d == 128 && e == 128
    then 3
    else 0

module _ (width : Bytes → ℕ) where
  -- Characters are dropped from the front as long as their width is positive; `rounds` bounds them.
  unfoldable pub skip : ℕ → Bytes → Bytes
  skip zero s = s
  skip (suc rounds) s = elim (width s) [ zero ↦ s | suc w ↦ skip rounds (drop (suc w) s) ]

unfoldable pub backwards : Bytes → Bytes → Bytes
backwards [] out = out
backwards (c ∷ s) out = backwards s (c ∷ out)

-- `strings.TrimSpace`, for texts of UTF-8
unfoldable pub trim_space : Bytes → Bytes
unfolding skip backwards
trim_space s =
    let front = skip space_width (length s) s in
    backwards (skip last_space_width (length front) (backwards front [])) []

-- `strings.HasSuffix`
unfoldable pub has_suffix : Bytes → Bytes → Bool
has_suffix [] suffix = bytes_eq [] suffix
has_suffix (c ∷ s) suffix = bytes_eq (c ∷ s) suffix || has_suffix s suffix

abbrev is_continuation : ℕ → Bool
is_continuation c = leb 128 c && leb c 191

-- The bytes of the first character: 1 where the bytes are not UTF-8.
unfoldable pub rune_width : Bytes → ℕ
rune_width [] = 0
rune_width (a ∷ []) = 1
rune_width (a ∷ b ∷ []) = if leb 194 a && leb a 223 && is_continuation b then 2 else 1
rune_width (a ∷ b ∷ c ∷ []) =
    if leb 194 a && leb a 223 && is_continuation b
    then 2
    else if leb 224 a
        && leb a 239
        && is_continuation b
        && is_continuation c
        && not (a == 224 && leb b 159)
        && not (a == 237 && leb 160 b)
    then 3
    else 1
rune_width (a ∷ b ∷ c ∷ d ∷ s) =
    if leb 194 a && leb a 223 && is_continuation b
    then 2
    else if leb 224 a
        && leb a 239
        && is_continuation b
        && is_continuation c
        && not (a == 224 && leb b 159)
        && not (a == 237 && leb 160 b)
    then 3
    else if leb 240 a
        && leb a 244
        && is_continuation b
        && is_continuation c
        && is_continuation d
        && not (a == 240 && leb b 143)
        && not (a == 244 && leb 144 b)
    then 4
    else 1

unfoldable pub runes : ℕ → Bytes → ℕ
unfolding rune_width
runes zero s = 0
runes (suc rounds) s = elim (rune_width s) [
  | zero ↦ 0
  | suc w ↦ suc (runes rounds (drop (suc w) s))
]

-- `utf8.RuneCountInString`
unfoldable pub rune_count : Bytes → ℕ
unfolding runes
rune_count s = runes (length s) s

-- Two texts without the separator, and the separator between them, are split into these.
pub split-one : (sep : ℕ) (s : Bytes) → All (λ c. (c == sep) ≡ false) s → split sep s ≡ s ∷ []
unfolding split
split-one sep [] h = refl
split-one sep (c ∷ s) (hc, h) = rw hc (rw (split-one sep s h) refl)

pub split-two :
    (sep : ℕ) (s t : Bytes)
    → All (λ c. (c == sep) ≡ false) s
    → All (λ c. (c == sep) ≡ false) t
    → split sep (s ++ sep ∷ t) ≡ s ∷ t ∷ []
unfolding split
split-two sep [] t hs ht =
    let hit : (sep == sep) ≡ true = ground arith in rw hit (rw (split-one sep t ht) refl)
split-two sep (c ∷ s) t (hc, hs) ht = rw hc (rw (split-two sep s t hs ht) refl)
