-- ===== src/Streams/Parse.antt =====
-- `ParseYouTubeURL` of apps/api/internal/streams/url.go. The package net/url is an argument: what
-- url.Parse answers and what the methods of its answer give, and url.PathUnescape. So is
-- strings.ToLower, which rests on the tables of Unicode.
use stream_analysis_tools.Base.{
  ℕ, Bool, true, false, not, ◌&&◌, ◌||◌, List, [], ◌∷◌, ◌++◌, length, Option, none, some, Bytes,
  codes, bytes_eq, leb, ltb, ◌==◌, if◌then◌else◌,
}
use stream_analysis_tools.Errors.{Result, ok, err, invalid_youtube_url}
use stream_analysis_tools.Go.Strings.{trim_space, split, backwards}
use stream_analysis_tools.Streams.Url.{YouTubeUrl}

-- A url.URL: fields and methods that the parser reads, `v` being Query()["v"].
pub record ParsedUrl : Type 0 where
  pub scheme : Bytes
  pub host : Bytes
  pub has_user : Bool
  pub port : Bytes
  pub hostname : Bytes
  pub path : Bytes
  pub escaped_path : Bytes
  pub v : List Bytes

abbrev pub is_blank : Bytes → Bool
is_blank [] = true
is_blank (c ∷ s) = false

-- A letter, a digit, `_` or `-`
abbrev pub is_id_byte : ℕ → Bool
is_id_byte c =
    leb 65 c && leb c 90 || leb 97 c && leb c 122 || leb 48 c && leb c 57 || c == 95 || c == 45

unfoldable pub all_id_bytes : Bytes → Bool
all_id_bytes [] = true
all_id_bytes (c ∷ s) = is_id_byte c && all_id_bytes s

-- `youTubeVideoIDPattern`
unfoldable pub is_video_id : Bytes → Bool
unfolding all_id_bytes
is_video_id s = length s == 11 && all_id_bytes s

-- strings.TrimLeft(s, "/") and strings.Trim(s, "/")
unfoldable pub trim_front : Bytes → Bytes
trim_front [] = []
trim_front (c ∷ s) = let rest = trim_front s in if c == 47 then rest else c ∷ s

unfoldable pub trim_slashes : Bytes → Bytes
unfolding trim_front
trim_slashes s = backwards (trim_front (backwards (trim_front s) [])) []

-- strings.TrimSuffix(s, ".")
unfoldable pub trim_dot : Bytes → Bytes
trim_dot [] = []
trim_dot (c ∷ []) = if c == 46 then [] else c ∷ []
trim_dot (c ∷ d ∷ s) = c ∷ trim_dot (d ∷ s)

abbrev pub canonical_of : Bytes → Bytes
canonical_of video_id = codes "https://www.youtube.com/watch?v=" ++ video_id

module _ (unescape : Bytes → Option Bytes) where
  abbrev or_blank : Option Bytes → Bytes
  or_blank none = []
  or_blank (some s) = s

  -- parts[0] is "live", "shorts" or "embed"
  abbrev of_parts : List Bytes → Bytes
  of_parts (kind ∷ id ∷ []) =
      if bytes_eq kind (codes "live")
        || bytes_eq kind (codes "shorts")
        || bytes_eq kind (codes "embed")
      then or_blank (unescape id)
      else []
  of_parts _ = []

  abbrev only_value : List Bytes → Bytes
  only_value (value ∷ []) = value
  only_value _ = []

  -- `videoIDFromYouTubePath`
  unfoldable pub video_id_from_youtube_path : ParsedUrl → Bytes
  unfolding trim_slashes
  video_id_from_youtube_path parsed =
      if bytes_eq (trim_slashes parsed.escaped_path) (codes "watch")
      then only_value parsed.v
      else of_parts (split 47 (trim_slashes parsed.escaped_path))

  abbrev of_embed : List Bytes → Bytes
  of_embed (kind ∷ id ∷ []) = if bytes_eq kind (codes "embed") then or_blank (unescape id) else []
  of_embed _ = []

  -- `videoIDFromEmbedPath`
  unfoldable pub video_id_from_embed_path : Bytes → Bytes
  unfolding trim_slashes
  video_id_from_embed_path path = of_embed (split 47 (trim_slashes path))

  abbrev of_single : List Bytes → Bytes
  of_single (id ∷ []) = or_blank (unescape id)
  of_single _ = []

  -- `singlePathSegment`
  unfoldable pub single_path_segment : Bytes → Bytes
  unfolding trim_slashes
  single_path_segment path = of_single (split 47 (trim_slashes path))

  abbrev is_one_of : Bytes → List Bytes → Bool
  is_one_of s [] = false
  is_one_of s (t ∷ ts) = bytes_eq s t || is_one_of s ts

  -- The switch on the host; `none` is its default.
  unfoldable pub video_id_of : Bytes → ParsedUrl → Option Bytes
  unfolding video_id_from_youtube_path video_id_from_embed_path single_path_segment
  video_id_of host parsed =
      if bytes_eq host (codes "youtu.be")
      then some (single_path_segment parsed.path)
      else if is_one_of host (
          codes "youtube.com"
          ∷ codes "www.youtube.com"
          ∷ codes "m.youtube.com"
          ∷ codes "music.youtube.com"
          ∷ [])
      then some (video_id_from_youtube_path parsed)
      else if is_one_of host (codes "youtube-nocookie.com" ∷ codes "www.youtube-nocookie.com" ∷ [])
      then some (video_id_from_embed_path parsed.path)
      else none

  abbrev pub identified : Option Bytes → Result YouTubeUrl
  identified none = err invalid_youtube_url
  identified (some video_id) =
      if is_video_id video_id
      then ok (record { video_id = video_id; canonical_url = canonical_of video_id })
      else err invalid_youtube_url

  module _ (parse : Bytes → Option ParsedUrl) (to_lower : Bytes → Bytes) where
    abbrev pub of_url : Option ParsedUrl → Result YouTubeUrl
    of_url none = err invalid_youtube_url
    of_url (some parsed) =
        if is_blank parsed.scheme || is_blank parsed.host
        then err invalid_youtube_url
        else if not (bytes_eq parsed.scheme (codes "https"))
            && not (bytes_eq parsed.scheme (codes "http"))
        then err invalid_youtube_url
        else if parsed.has_user || not (is_blank parsed.port)
        then err invalid_youtube_url
        else identified (video_id_of (to_lower (trim_dot parsed.hostname)) parsed)

    -- `ParseYouTubeURL`
    unfoldable pub parse_youtube_url : Bytes → Result YouTubeUrl
    unfolding video_id_of is_video_id trim_dot
    parse_youtube_url raw =
        if is_blank (trim_space raw) || ltb 2048 (length (trim_space raw))
        then err invalid_youtube_url
        else of_url (parse (trim_space raw))
