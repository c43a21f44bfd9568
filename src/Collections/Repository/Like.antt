-- ===== src/Collections/Repository/Like.antt =====
-- `escapeLikePattern` of apps/api/internal/collections/repository.go, and PostgreSQL's ILIKE with
-- ESCAPE '\', which it is written for: `%` stands for any text, `_` for any one character, and a
-- backslash takes the character behind it literally. Which characters ILIKE holds for the same is
-- the database's locale, and an argument.
use stream_analysis_tools.Base.{
  ℕ, ◌≡◌, refl, ap, Bool, true, false, ◌&&◌, ◌||◌, List, [], ◌∷◌, ◌++◌, arith, Bytes, ◌==◌,
  if◌then◌else◌,
}

abbrev pub percent : ℕ
percent = 37

abbrev pub backslash : ℕ
backslash = 92

abbrev pub underscore : ℕ
underscore = 95

abbrev is_special : ℕ → Bool
is_special c = c == backslash || c == percent || c == underscore

-- `escapeLikePattern`
unfoldable pub escape_like_pattern : Bytes → Bytes
escape_like_pattern [] = []
escape_like_pattern (c ∷ s) =
    let rest = escape_like_pattern s in if is_special c then backslash ∷ c ∷ rest else c ∷ rest

-- "%" + escapeLikePattern(query) + "%"
unfoldable pub search_pattern : Bytes → Bytes
unfolding escape_like_pattern
search_pattern query = percent ∷ (escape_like_pattern query ++ percent ∷ [])

-- A pattern, read. PostgreSQL refuses a pattern that ends in an escape, which matches nothing here.
pub data Token : Type 0 where
  any_text any_one refused : Token
  letter : ℕ → Token

abbrev plain_token : ℕ → Token
plain_token c = if c == percent then any_text else if c == underscore then any_one else letter c

-- The flag says that a backslash stands before the rest.
unfoldable pub read_pattern : Bool → Bytes → List Token
read_pattern true [] = refused ∷ []
read_pattern false [] = []
read_pattern true (c ∷ s) = letter c ∷ read_pattern false s
read_pattern false (c ∷ s) =
    let rest = read_pattern false s in
    let escaped = read_pattern true s in if c == backslash then escaped else plain_token c ∷ rest

-- Some tail of the text fits.
unfoldable pub somewhere : (Bytes → Bool) → Bytes → Bool
somewhere fits [] = fits []
somewhere fits (c ∷ s) = fits (c ∷ s) || somewhere fits s

module _ (same : ℕ → ℕ → Bool) where
  unfoldable pub like : List Token → Bytes → Bool
  unfolding somewhere
  like [] [] = true
  like [] (c ∷ s) = false
  like (any_text ∷ p) s = somewhere (like p) s
  like (any_one ∷ p) [] = false
  like (any_one ∷ p) (c ∷ s) = like p s
  like (refused ∷ p) s = false
  like (letter x ∷ p) [] = false
  like (letter x ∷ p) (c ∷ s) = same x c && like p s

  -- message_text ILIKE pattern ESCAPE '\'
  unfoldable pub ilike : Bytes → Bytes → Bool
  unfolding like read_pattern
  ilike text pattern = like (read_pattern false pattern) text

  -- The text starts with the query.
  unfoldable pub starts_with : Bytes → Bytes → Bool
  starts_with [] text = true
  starts_with (x ∷ query) [] = false
  starts_with (x ∷ query) (c ∷ text) = same x c && starts_with query text

  -- The text contains the query.
  unfoldable pub contains : Bytes → Bytes → Bool
  unfolding starts_with somewhere
  contains query text = somewhere (starts_with query) text

  abbrev letters : Bytes → List Token
  letters [] = any_text ∷ []
  letters (c ∷ s) = letter c ∷ letters s

  read-escape :
      (query : Bytes)
      → read_pattern false (escape_like_pattern query ++ percent ∷ []) ≡ letters query
  unfolding read_pattern escape_like_pattern
  read-escape [] = refl
  read-escape (c ∷ s) = ground (arith, read-escape s)

  anything : (text : Bytes) → somewhere (like []) text ≡ true
  unfolding somewhere like
  anything [] = refl
  anything (c ∷ s) = anything s

  like-letters : (query text : Bytes) → like (letters query) text ≡ starts_with query text
  unfolding like starts_with
  like-letters [] text = anything text
  like-letters (x ∷ query) [] = refl
  like-letters (x ∷ query) (c ∷ text) = ap (λ b. same x c && b) (like-letters query text)

  somewhere-ext :
      (f g : Bytes → Bool) (text : Bytes)
      → ((s : Bytes) → f s ≡ g s)
      → somewhere f text ≡ somewhere g text
  unfolding somewhere
  somewhere-ext f g [] h = h []
  somewhere-ext f g (c ∷ s) h = rw (h (c ∷ s)) (rw (somewhere-ext f g s h) refl)

  -- Whatever characters ILIKE holds for the same, and whatever wildcards and backslashes stand in the
  -- query: a message matches the pattern of a search exactly if its text contains the query.
  pub ilike-search_pattern :
      (query text : Bytes) → ilike text (search_pattern query) ≡ contains query text
  unfolding ilike search_pattern contains like read_pattern
  ilike-search_pattern query text =
      rw (read-escape query)
        (somewhere-ext (like (letters query)) (starts_with query) text (like-letters query))
