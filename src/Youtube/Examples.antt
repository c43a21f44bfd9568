-- ===== src/Youtube/Examples.antt =====
-- The theorems on the YouTube client at one video, with whole numbers in place of floating-point ones.
use stream_analysis_tools.Base.{
  ℕ, ◌*◌, ◌+◌, ◌-◌, pos, ◌≡◌, refl, Bool, true, false, not, List, [], ◌∷◌, Option, some, Bytes,
  codes, bytes_eq,
}
use stream_analysis_tools.Errors.{is_ok}
use stream_analysis_tools.Go.Strings.{trim_space, skip, backwards, space_width, last_space_width}
use stream_analysis_tools.Streams.Model.{Metadata}
use stream_analysis_tools.Streams.Normalize.{normalize_metadata, ends_early}
use stream_analysis_tools.Youtube.Client.{
  LiveDetails, VideoResource, Response, Location, thumbnail_named, lifecycle_status,
  first_thumbnail, preferred_thumbnail, metadata_of, metadata_from_video, fetch,
}
use stream_analysis_tools.Youtube.Duration.{
  int64, digit_run, unit_group, fraction_of, second_group, match_duration, with_units, units, join,
  add_parts, parse_duration,
}
use stream_analysis_tools.Youtube.Fetched.{
  Outcome, fetched, fetch-Outcome, fetch-normalize_metadata,
}
use stream_analysis_tools.Youtube.Sums.{value_of, fitting, sum_of_parts, add_parts_sum}

abbrev parse_whole : ℕ → Bytes → Option ℕ
parse_whole n [] = some n
parse_whole n (c ∷ s) = parse_whole (10 * n + (c - 48)) s

abbrev never : ℕ → Bool
never amount = false

abbrev scaled : ℕ → ℕ → ℕ
scaled amount unit = amount * unit

abbrev parts : List (Bytes × ℕ)
parts = with_units ([] ∷ codes "1" ∷ codes "30" ∷ [] ∷ []) units

add_parts_sum_example :
    value_of (add_parts (parse_whole 0) never scaled (pos 0) parts)
    ≡ fitting (sum_of_parts (parse_whole 0) never scaled parts)
add_parts_sum_example = add_parts_sum (parse_whole 0) never scaled parts

abbrev secure : Bytes → Option Location
secure url = some (record { scheme = codes "https"; host = codes "i.ytimg.com" })

abbrev details : LiveDetails
details = record {
  scheduled_start_time = some 500;
  actual_start_time = some 510;
  actual_end_time = some 900;
}

abbrev video : VideoResource
video = record {
  id = codes "dQw4w9WgXcQ";
  title = codes " A stream";
  channel_id = codes "UC1";
  channel_title = codes "A channel";
  thumbnails = (codes "high", codes "https://i.ytimg.com/1.jpg") ∷ [];
  duration = codes "PT1H30M";
  live_streaming_details = some details;
}

abbrev one_video : Bytes → Option Response
one_video id = some (record { status_code = 200; items = some (video ∷ []) })

abbrev always : Bytes → Bool
always id = true

fetch-Outcome_example : Outcome secure (parse_whole 0) never scaled 1000 (
    fetched secure
      (parse_whole 0)
      never
      scaled
      1000
      (codes "key")
      always
      one_video
      (codes "dQw4w9WgXcQ"))
fetch-Outcome_example =
    fetch-Outcome secure (parse_whole 0) never scaled 1000 (codes "key") always one_video
      (codes "dQw4w9WgXcQ")

abbrev metadata : Metadata
metadata =
    metadata_of secure (parse_whole 0) never scaled 1000 video details
      (some (pos 5_400_000_000_000)) (some (codes "https://i.ytimg.com/1.jpg"))

fetch-normalize_metadata_example :
    is_ok (
      normalize_metadata (record metadata {
        youtube_video_id = codes "dQw4w9WgXcQ";
        canonical_url = codes "https://www.youtube.com/watch?v=dQw4w9WgXcQ";
      }))
    ≡ not (ends_early metadata.actual_start_at metadata.actual_end_at)
unfolding fetch metadata_from_video preferred_thumbnail first_thumbnail thumbnail_named
    lifecycle_status parse_duration match_duration unit_group second_group digit_run fraction_of
    with_units join add_parts trim_space skip backwards space_width last_space_width bytes_eq int64
fetch-normalize_metadata_example =
    fetch-normalize_metadata secure (parse_whole 0) never scaled 1000 (codes "key") always one_video
      (codes "dQw4w9WgXcQ") (codes "https://www.youtube.com/watch?v=dQw4w9WgXcQ") metadata refl refl
      refl refl refl
