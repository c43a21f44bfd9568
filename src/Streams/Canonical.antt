-- ===== src/Streams/Canonical.antt =====
-- The identity that `ParseYouTubeURL` of apps/api/internal/streams/url.go finds.
use stream_analysis_tools.Base.{
  ℕ, zero, suc, ◌≡◌, refl, ap, subst, ◌∙◌, true, false, not, ◌&&◌, ◌||◌, [], ◌∷◌, ◌++◌, length,
  Option, none, some, Bytes, codes, bytes_eq, arith, ltb, Bool-cases, inl, inr,
}
use stream_analysis_tools.Errors.{Result, ok, err}
use stream_analysis_tools.Go.Strings.{trim_space, skip, backwards, space_width, last_space_width}
use stream_analysis_tools.Streams.Parse.{
  ParsedUrl, is_blank, is_id_byte, all_id_bytes, is_video_id, canonical_of, identified, of_url,
  parse_youtube_url, video_id_of, video_id_from_youtube_path, trim_slashes, trim_front, trim_dot,
}
use stream_analysis_tools.Streams.Url.{YouTubeUrl}

-- What net/url makes of a canonical URL.
abbrev pub canonical_parts : Bytes → ParsedUrl
canonical_parts video_id = record {
  scheme = codes "https";
  host = codes "www.youtube.com";
  has_user = false;
  port = [];
  hostname = codes "www.youtube.com";
  path = codes "/watch";
  escaped_path = codes "/watch";
  v = video_id ∷ [];
}

-- What the packages say of canonical URLs: each is read into its parts, and the host is in lower case.
pub record ReadsCanonical (parse : Bytes → Option ParsedUrl) (to_lower : Bytes → Bytes)
    : Type 0 where
  pub reads :
      (id : Bytes) → is_video_id id ≡ true → parse (canonical_of id) ≡ some (canonical_parts id)
  pub lower : to_lower (codes "www.youtube.com") ≡ codes "www.youtube.com"

-- A text whose first and last character are no space is not trimmed.
skip_nothing : (width : Bytes → ℕ) (n : ℕ) (s : Bytes) → width s ≡ 0 → skip width n s ≡ s
unfolding skip
skip_nothing width zero s h = refl
skip_nothing width (suc n) s h = rw (h, skip) refl

backwards_onto : (s t u : Bytes) → backwards (backwards s t) u ≡ backwards t (s ++ u)
unfolding backwards
backwards_onto [] t u = refl
backwards_onto (c ∷ s) t u = backwards_onto s (c ∷ t) u

append_nil : (s : Bytes) → s ++ [] ≡ s
append_nil [] = refl
append_nil (c ∷ s) = ap (◌∷◌ c) (append_nil s)

trim_space_plain :
    (s : Bytes) → space_width s ≡ 0 → last_space_width (backwards s []) ≡ 0 → trim_space s ≡ s
unfolding trim_space
trim_space_plain s h k = rw (skip_nothing space_width (length s) s h) (
    rw (skip_nothing last_space_width (length s) (backwards s []) k)
      (backwards_onto s [] [] ∙ append_nil s))

-- The bytes of an identifier are no spaces.
last_id_byte : (c : ℕ) (s : Bytes) → is_id_byte c ≡ true → last_space_width (c ∷ s) ≡ 0
unfolding last_space_width
last_id_byte c [] h = ground (arith, h)
last_id_byte c (d ∷ []) h = ground (arith, h)
last_id_byte c (d ∷ e ∷ s) h = ground (arith, h)

ends_plain :
    (s t : Bytes)
    → all_id_bytes s ≡ true
    → last_space_width t ≡ 0
    → last_space_width (backwards s t) ≡ 0
unfolding backwards all_id_bytes
ends_plain [] t h k = k
ends_plain (c ∷ s) t h k = ends_plain s (c ∷ t) (ground arith) (last_id_byte c t (ground arith))

trim_space-canonical :
    (id : Bytes) → all_id_bytes id ≡ true → trim_space (canonical_of id) ≡ canonical_of id
unfolding backwards space_width last_space_width
trim_space-canonical id h = trim_space_plain (canonical_of id) front (ending id h)
  where
    front : space_width (canonical_of id) ≡ 0
    front = refl

    ending :
        (id : Bytes)
        → all_id_bytes id ≡ true
        → last_space_width (backwards (canonical_of id) []) ≡ 0
    ending id h = ends_plain id (backwards (canonical_of []) []) h refl

letters : (id : Bytes) → is_video_id id ≡ true → all_id_bytes id ≡ true
unfolding is_video_id
letters id v = ground arith

eleven : (id : Bytes) → is_video_id id ≡ true → ltb 2048 (length (canonical_of id)) ≡ false
unfolding is_video_id
eleven id v = let l : length id ≡ 11 = ground arith in rw l refl

module _ (unescape : Bytes → Option Bytes) (parse : Bytes → Option ParsedUrl)
    (to_lower : Bytes → Bytes) where
  -- An identity is a video ID with the canonical URL made of it.
  abbrev pub IsCanonical : YouTubeUrl → Type 0
  IsCanonical u = (is_video_id u.video_id ≡ true) × (u.canonical_url ≡ canonical_of u.video_id)

  abbrev Outcome : Result YouTubeUrl → Type 0
  Outcome (ok u) = IsCanonical u
  Outcome (err e) = Unit

  identified-Outcome : (o : Option Bytes) → Outcome (identified unescape o)
  identified-Outcome none = tt
  identified-Outcome (some id) = elim (Bool-cases (is_video_id id)) [
    | inl e ↦ rw e (e, refl)
    | inr e ↦ rw e tt
  ]

  of_url-Outcome : (o : Option ParsedUrl) → Outcome (of_url unescape parse to_lower o)
  of_url-Outcome none = tt
  of_url-Outcome (some p) = elim (Bool-cases (is_blank p.scheme || is_blank p.host)) [
    | inl e ↦ rw e tt
    | inr a ↦
        elim (Bool-cases
          (not (bytes_eq p.scheme (codes "https")) && not (bytes_eq p.scheme (codes "http")))) [
            | inl e ↦ rw a (rw e tt)
            | inr b ↦ elim (Bool-cases (p.has_user || not (is_blank p.port))) [
              | inl e ↦ rw a (rw b (rw e tt))
              | inr c ↦ rw a (
                  rw b (
                    rw c (
                      identified-Outcome
                        (video_id_of unescape (to_lower (trim_dot p.hostname)) p))))
            ]
          ]
  ]

  parse_youtube_url-Outcome :
      (raw : Bytes) → Outcome (parse_youtube_url unescape parse to_lower raw)
  unfolding parse_youtube_url
  parse_youtube_url-Outcome raw =
      elim (Bool-cases (is_blank (trim_space raw) || ltb 2048 (length (trim_space raw)))) [
        | inl e ↦ rw e tt
        | inr e ↦ rw e (of_url-Outcome (parse (trim_space raw)))
      ]

  -- What `ParseYouTubeURL` accepts is a video ID of eleven letters, digits, `_` and `-`, and the
  -- canonical URL made of it.
  pub parse_youtube_url-IsCanonical :
      (raw : Bytes) (u : YouTubeUrl)
      → parse_youtube_url unescape parse to_lower raw ≡ ok u
      → IsCanonical u
  parse_youtube_url-IsCanonical raw u e = subst Outcome e (parse_youtube_url-Outcome raw)

  canonical_identity :
      (id : Bytes)
      → ReadsCanonical parse to_lower
      → is_video_id id ≡ true
      → parse_youtube_url unescape parse to_lower (canonical_of id)
        ≡ ok (record { video_id = id; canonical_url = canonical_of id })
  unfolding parse_youtube_url video_id_of video_id_from_youtube_path trim_slashes trim_front
      trim_dot backwards bytes_eq
  canonical_identity id h v =
      rw (trim_space-canonical id (letters id v))
        (rw (eleven id v) (rw (h.reads id v) (rw h.lower (rw v refl))))

  -- The canonical URL of an identity that `ParseYouTubeURL` accepts is accepted and has that identity:
  -- every link of a video that is registered leads to the same video ID and the same URL. It wants a
  -- net/url that reads canonical URLs into their parts.
  pub parse_youtube_url_again :
      (raw : Bytes) (u : YouTubeUrl)
      → ReadsCanonical parse to_lower
      → parse_youtube_url unescape parse to_lower raw ≡ ok u
      → parse_youtube_url unescape parse to_lower u.canonical_url ≡ ok u
  parse_youtube_url_again raw u h e =
      let (id, url) = parse_youtube_url-IsCanonical raw u e in
      rw url (canonical_identity u.video_id h id)
