-- ===== src/Youtube/Client.antt =====
-- The client of apps/api/internal/youtube/client.go. What the network and the packages answer is an
-- argument: for a video, whether the request can be built, and what the YouTube API sends.
use stream_analysis_tools.Base.{
  ℕ, ℤ, Bool, true, false, not, ◌&&◌, ◌||◌, List, [], ◌∷◌, Option, none, some, Bytes, codes,
  bytes_eq, String, Time, leb, ltb, if◌then◌else◌,
}
use stream_analysis_tools.Errors.{
  Result, ok, err, other, metadata_provider_unavailable, video_unavailable,
}
use stream_analysis_tools.Go.Strings.{trim_space}
use stream_analysis_tools.Streams.Model.{LifecycleStatus, Metadata}
use stream_analysis_tools.Youtube.Duration.{parse_duration}

-- `liveStreamingDetails`
pub record LiveDetails : Type 0 where
  pub scheduled_start_time : Option Time
  pub actual_start_time : Option Time
  pub actual_end_time : Option Time

-- `videoResource`; the thumbnails are the pairs of the map.
pub record VideoResource : Type 0 where
  pub id : Bytes
  pub title : Bytes
  pub channel_id : Bytes
  pub channel_title : Bytes
  pub thumbnails : List (Bytes × Bytes)
  pub duration : Bytes
  pub live_streaming_details : Option LiveDetails

-- A response: its status, and the items of its body, `none` where the body is not decoded within
-- the first 1 << 20 bytes.
pub record Response : Type 0 where
  pub status_code : ℕ
  pub items : Option (List VideoResource)

-- Scheme and host of what url.Parse answers.
pub record Location : Type 0 where
  pub scheme : Bytes
  pub host : Bytes

-- `thumbnails[name].URL`, the empty text where there is none
unfoldable pub thumbnail_named : Bytes → List (Bytes × Bytes) → Bytes
thumbnail_named name [] = []
thumbnail_named name ((key, url) ∷ rest) =
    let later = thumbnail_named name rest in if bytes_eq key name then url else later

abbrev pub is_blank : Bytes → Bool
is_blank [] = true
is_blank (c ∷ s) = false

-- `utcTime`: the same instant
abbrev pub utc_time : Option Time → Option Time
utc_time none = none
utc_time (some value) = some value

-- `lifecycleStatus`
unfoldable pub lifecycle_status : Option Time → Option Time → Option Time → LifecycleStatus
lifecycle_status scheduled_start actual_start (some t) = LifecycleStatus.ended
lifecycle_status scheduled_start (some t) none = LifecycleStatus.live
lifecycle_status (some t) none none = LifecycleStatus.scheduled
lifecycle_status none none none = LifecycleStatus.unknown

module _ (parse_url : Bytes → Option Location) where
  -- err != nil || parsed.Scheme != "https" || parsed.Host == ""
  abbrev is_secure : Option Location → Bool
  is_secure none = false
  is_secure (some l) = bytes_eq l.scheme (codes "https") && not (is_blank l.host)

  -- The loop of `preferredThumbnail`.
  unfoldable pub first_thumbnail : List (Bytes × Bytes) → List String → Result (Option Bytes)
  unfolding thumbnail_named
  first_thumbnail thumbnails [] = ok none
  first_thumbnail thumbnails (name ∷ names) =
      let rest = first_thumbnail thumbnails names in
      let candidate = trim_space (thumbnail_named (codes name) thumbnails) in
      if is_blank candidate
      then rest
      else if is_secure (parse_url candidate)
      then ok (some candidate)
      else err (other "invalid thumbnail URL")

  -- `preferredThumbnail`
  unfoldable pub preferred_thumbnail : List (Bytes × Bytes) → Result (Option Bytes)
  unfolding first_thumbnail
  preferred_thumbnail thumbnails =
      first_thumbnail thumbnails ("maxres" ∷ "standard" ∷ "high" ∷ "medium" ∷ "default" ∷ [])

  module _ {F : Type 0} (parse_float : Bytes → Option F) (is_negative : F → Bool)
      (scaled : F → ℕ → ℕ) (now : Time) where
    -- The literal that `metadataFromVideo` returns; the identity of the video stays empty.
    abbrev pub metadata_of : VideoResource → LiveDetails → Option ℤ → Option Bytes → Metadata
    metadata_of video details duration thumbnail = record {
      youtube_video_id = [];
      canonical_url = [];
      title = trim_space video.title;
      channel_id = trim_space video.channel_id;
      channel_title = trim_space video.channel_title;
      thumbnail_url = thumbnail;
      scheduled_start_at = utc_time details.scheduled_start_time;
      actual_start_at = utc_time details.actual_start_time;
      actual_end_at = utc_time details.actual_end_time;
      duration = duration;
      lifecycle_status =
          lifecycle_status (utc_time details.scheduled_start_time)
            (utc_time details.actual_start_time) (utc_time details.actual_end_time);
      metadata_fetched_at = now;
    }

    abbrev pub completed :
        VideoResource → LiveDetails → Result (Option ℤ) → Result (Option Bytes) → Result Metadata
    completed video details (err e) thumbnail = err metadata_provider_unavailable
    completed video details (ok duration) (err e) = err metadata_provider_unavailable
    completed video details (ok duration) (ok thumbnail) =
        ok (metadata_of video details duration thumbnail)

    abbrev pub of_live : VideoResource → Option LiveDetails → Result Metadata
    of_live video none = err video_unavailable
    of_live video (some details) =
        if is_blank (trim_space video.title)
          || is_blank (trim_space video.channel_id)
          || is_blank (trim_space video.channel_title)
        then err metadata_provider_unavailable
        else completed video details (parse_duration parse_float is_negative scaled video.duration)
            (preferred_thumbnail video.thumbnails)

    -- `metadataFromVideo`
    unfoldable pub metadata_from_video : VideoResource → Result Metadata
    unfolding preferred_thumbnail lifecycle_status
    metadata_from_video video = of_live video video.live_streaming_details

    abbrev pub of_items : Bytes → List VideoResource → Result Metadata
    of_items video_id [] = err video_unavailable
    of_items video_id (video ∷ []) =
        if bytes_eq video.id video_id
        then metadata_from_video video
        else err metadata_provider_unavailable
    of_items video_id (video ∷ second ∷ rest) = err metadata_provider_unavailable

    abbrev pub of_payload : Bytes → Option (List VideoResource) → Result Metadata
    of_payload video_id none = err metadata_provider_unavailable
    of_payload video_id (some items) = of_items video_id items

    -- response.StatusCode < http.StatusOK || response.StatusCode >= http.StatusMultipleChoices
    abbrev pub of_response : Bytes → Option Response → Result Metadata
    of_response video_id none = err metadata_provider_unavailable
    of_response video_id (some r) =
        if ltb r.status_code 200 || leb 300 r.status_code
        then err metadata_provider_unavailable
        else of_payload video_id r.items

    -- `Fetch`. `is_buildable` says that url.Parse and http.NewRequestWithContext succeed for the base
    -- URL and the video, `exchange` what the HTTP client answers, `none` being an error.
    unfoldable pub fetch :
        Bytes → (Bytes → Bool) → (Bytes → Option Response) → Bytes → Result Metadata
    unfolding metadata_from_video
    fetch api_key is_buildable exchange video_id =
        if is_blank api_key
        then err metadata_provider_unavailable
        else if not (is_buildable video_id)
        then err metadata_provider_unavailable
        else of_response video_id (exchange video_id)
