-- ===== src/Streams/Examples.antt =====
-- The theorems on the streams at concrete metadata.
use stream_analysis_tools.Base.{
  pos, ◌≡◌, refl, true, [], Option, none, some, Bytes, codes, char_length,
}
use stream_analysis_tools.Errors.{Result, ok}
use stream_analysis_tools.Sql.Rows.{Database}
use stream_analysis_tools.Sql.Session.{World, statement}
use stream_analysis_tools.Sql.Table.{find}
use stream_analysis_tools.Sql.StreamTable.{stream_checks, row_of_metadata}
use stream_analysis_tools.Streams.Model.{LifecycleStatus, Metadata, Stream}
use stream_analysis_tools.Streams.Normalize.{normalize_metadata, normalize_metadata-stream_checks}
use stream_analysis_tools.Streams.Registered.{Registered, register_then_get}
use stream_analysis_tools.Streams.Repository.{scan_stream, create, get}
use stream_analysis_tools.Streams.Service.{register}
use stream_analysis_tools.Go.Strings.{trim_space, skip, backwards, space_width, last_space_width}
use stream_analysis_tools.Base.{bytes_eq, drop, length}
use stream_analysis_tools.Streams.Parse.{
  ParsedUrl, canonical_of, parse_youtube_url, video_id_of, video_id_from_youtube_path, trim_slashes,
  trim_front, trim_dot, is_video_id, all_id_bytes,
}
use stream_analysis_tools.Streams.Canonical.{
  canonical_parts, ReadsCanonical, IsCanonical, parse_youtube_url-IsCanonical,
  parse_youtube_url_again,
}
use stream_analysis_tools.Streams.Url.{YouTubeUrl}

abbrev announced : Metadata
announced = record {
  youtube_video_id = codes "dQw4w9WgXcQ";
  canonical_url = codes "https://www.youtube.com/watch?v=dQw4w9WgXcQ";
  title = codes "A stream";
  channel_id = codes "UC1";
  channel_title = codes "A channel";
  thumbnail_url = none;
  scheduled_start_at = some 500;
  actual_start_at = none;
  actual_end_at = none;
  duration = some (pos 1_500_000);
  lifecycle_status = LifecycleStatus.blank;
  metadata_fetched_at = 100;
}

abbrev normal : Metadata
normal = record announced { lifecycle_status = LifecycleStatus.unknown }

normalize_metadata-stream_checks_example :
    (stream_checks (row_of_metadata 4 normal 200) ≡ true) × (normalize_metadata normal ≡ ok normal)
unfolding normalize_metadata
normalize_metadata-stream_checks_example =
    normalize_metadata-stream_checks announced normal 4 200 (refl, refl, refl, refl, refl) refl

-- A parser and a provider that answer one video, whatever they are asked for.
abbrev one_url : Bytes → Result YouTubeUrl
one_url raw = ok (record {
  video_id = codes "dQw4w9WgXcQ";
  canonical_url = codes "https://www.youtube.com/watch?v=dQw4w9WgXcQ";
})

abbrev one_video : Option (Bytes → Result Metadata)
one_video = some (λ video_id. ok announced)

abbrev vacant : World Database
vacant = record {
  db = record { reservations = []; transitions = []; jobs = []; streams = []; messages = [] };
  faults = [];
}

abbrev read_stream : Stream
read_stream = scan_stream (row_of_metadata 4 normal 200)

register_then_get_example :
    let db = (register one_url one_video 4 200 (codes "x") vacant).1.db in
    get read_stream.id (record { db = db; faults = [] })
    ≡ (ok read_stream, record { db = db; faults = [] })
unfolding register normalize_metadata create statement stream_checks char_length row_of_metadata
    find
register_then_get_example =
    register_then_get one_url one_video 4 200 (codes "x") vacant read_stream refl

-- A net/url that reads canonical URLs.
abbrev pub read_canonical : Bytes → Option ParsedUrl
read_canonical raw = some (canonical_parts (drop (length (canonical_of [])) raw))

abbrev pub as_it_is : Bytes → Bytes
as_it_is s = s

reads_canonical : ReadsCanonical read_canonical as_it_is
reads_canonical = record { reads = λ id v. refl; lower = refl }

abbrev pub shared_link : Bytes
shared_link = codes "https://www.youtube.com/watch?v=dQw4w9WgXcQ "

abbrev shared : YouTubeUrl
shared = record {
  video_id = codes "dQw4w9WgXcQ";
  canonical_url = codes "https://www.youtube.com/watch?v=dQw4w9WgXcQ";
}

shared_link_parses : parse_youtube_url some read_canonical as_it_is shared_link ≡ ok shared
unfolding parse_youtube_url video_id_of video_id_from_youtube_path trim_slashes trim_front trim_dot
    is_video_id all_id_bytes trim_space skip backwards space_width last_space_width bytes_eq
shared_link_parses = refl

parse_youtube_url-IsCanonical_example : IsCanonical some read_canonical as_it_is shared
parse_youtube_url-IsCanonical_example =
    parse_youtube_url-IsCanonical some read_canonical as_it_is shared_link shared shared_link_parses

parse_youtube_url_again_example :
    parse_youtube_url some read_canonical as_it_is shared.canonical_url ≡ ok shared
parse_youtube_url_again_example =
    parse_youtube_url_again some read_canonical as_it_is shared_link shared reads_canonical
      shared_link_parses
