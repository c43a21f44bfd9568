-- ===== src/Http/Examples.antt =====
-- The theorems on the server at a database without rows, for packages that are small functions.
use stream_analysis_tools.Base.{
  ◌≡◌, refl, pos, true, false, [], ◌∷◌, none, some, codes, char_length, bytes_eq,
}
use stream_analysis_tools.Errors.{ok}
use stream_analysis_tools.Http.Contract.{Answered, serve-Answered}
use stream_analysis_tools.Http.Reservations.{create_reservation, reservation_created}
use stream_analysis_tools.Http.Resources.{
  UuidPaths, Served, post_stream, post_reservation, create_stream-Served, create_reservation-Served,
  get_of,
}
use stream_analysis_tools.Http.Routes.{Request, Packages, Surroundings}
use stream_analysis_tools.Http.Safe.{serve_keeps}
use stream_analysis_tools.Http.Server.{serve}
use stream_analysis_tools.Http.Streams.{create_stream, stream_created, respond}
use stream_analysis_tools.Reservations.Service
use stream_analysis_tools.Reservations.Service.{requested}
use stream_analysis_tools.Reservations.Repository.Public
use stream_analysis_tools.Reservations.Repository.Public.{create_transaction, insert_reservation}
use stream_analysis_tools.Reservations.Repository.Rows.{insert_transition}
use stream_analysis_tools.Samples.{
  sample_string, sample_parse, sample_read_back, sample_segment, sample_not_empty,
}
use stream_analysis_tools.Sql.Rows.{Database, JobRow, ReservationRow}
use stream_analysis_tools.Sql.Jobs.{new_job}
use stream_analysis_tools.Collections.Model.{JobStatus}
use stream_analysis_tools.Collections.Repository.Jobs.{scan_job}
use stream_analysis_tools.Reservations.Model.{State}
use stream_analysis_tools.Reservations.Repository.Rows.{scan_reservation}
use stream_analysis_tools.Http.Enums.{
  is_job_status, is_current_step, is_reservation_state, is_lifecycle_status,
}
use stream_analysis_tools.Http.Responses.{
  collection_job_response, reservation_response, metadata_response,
}
use stream_analysis_tools.Http.Valid.{IfSome, responses-Valid}
use stream_analysis_tools.Sql.Session.{World, statement, transact, select, execute, call}
use stream_analysis_tools.Sql.StreamTable.{stream_checks, row_of_metadata}
use stream_analysis_tools.Sql.Table.{find}
use stream_analysis_tools.Streams.Model.{LifecycleStatus, Metadata}
use stream_analysis_tools.Streams.Normalize.{normalize_metadata}
use stream_analysis_tools.Streams.Repository
use stream_analysis_tools.Streams.Service.{register}
use stream_analysis_tools.Streams.Url.{YouTubeUrl}

abbrev packages : Packages
packages = record {
  uuid_string = sample_string;
  uuid_parse = sample_parse;
  bind_path = some;
  bind_integer = λ name query. some none;
  bind_text = λ name query. some none;
  bind_required_text = λ name query. some (codes "clip");
  decode_url = λ content. some content.bytes;
  decode_map = λ body. none;
  is_eof = λ rest. false;
}

texts : UuidPaths packages
texts = record {
  read_back = sample_read_back;
  is_segment = sample_segment;
  not_empty = sample_not_empty;
  bound_as_is = λ id. refl;
}

abbrev announced : Metadata
announced = record {
  youtube_video_id = codes "dQw4w9WgXcQ";
  canonical_url = codes "https://www.youtube.com/watch?v=dQw4w9WgXcQ";
  title = codes "A stream";
  channel_id = codes "UC1";
  channel_title = codes "A channel";
  thumbnail_url = none;
  scheduled_start_at = some 500;
  actual_start_at = none;
  actual_end_at = none;
  duration = some (pos 1_500_000);
  lifecycle_status = LifecycleStatus.scheduled;
  metadata_fetched_at = 100;
}

abbrev one_video : YouTubeUrl
one_video = record {
  video_id = codes "dQw4w9WgXcQ";
  canonical_url = codes "https://www.youtube.com/watch?v=dQw4w9WgXcQ";
}

abbrev surroundings : Surroundings
surroundings = record {
  parse_youtube_url = λ raw. ok one_video;
  provider = some (λ video_id. ok announced);
  same = λ a b. bytes_eq (a ∷ []) (b ∷ []);
  fresh = 7;
  now = 200;
}

abbrev vacant : World Database
vacant = record {
  db = record { reservations = []; transitions = []; jobs = []; streams = []; messages = [] };
  faults = [];
}

abbrev retry : Request
retry = record {
  method = codes "POST";
  path = codes "/v1/collection-jobs/a/retry";
  query = [];
  content = record { bytes = codes "[1]"; is_broken = false };
}

serve-Answered_example : Answered packages surroundings (serve packages surroundings retry vacant).0
serve-Answered_example = serve-Answered packages surroundings retry vacant

serve_keeps_example :
    (serve packages surroundings (get_of (codes "/v1/streams")) vacant).1.db ≡ vacant.db
unfolding bytes_eq
serve_keeps_example = serve_keeps packages surroundings (get_of (codes "/v1/streams")) vacant refl

create_stream-Served_example :
    Served packages surroundings texts
      (post_stream packages surroundings texts (codes "x") vacant).1.db
      (post_stream packages surroundings texts (codes "x") vacant).0
unfolding create_stream stream_created respond register Repository.create normalize_metadata
    statement stream_checks char_length row_of_metadata find
create_stream-Served_example =
    create_stream-Served packages surroundings texts (codes "x") vacant refl

create_reservation-Served_example :
    Served packages surroundings texts
      (post_reservation packages surroundings texts (codes "x") vacant).1.db
      (post_reservation packages surroundings texts (codes "x") vacant).0
unfolding create_reservation reservation_created respond Service.create requested Public.create
    create_transaction statement find transact select execute call insert_reservation
    insert_transition Public.get Public.new_row
create_reservation-Served_example =
    create_reservation-Served packages surroundings texts (codes "x") vacant refl

abbrev done_job : JobRow
done_job = record (new_job 3 5 (some 7) 10) { status = JobStatus.succeeded; attempt = 1 }

abbrev reserved : ReservationRow
reserved = record {
  id = 7;
  youtube_video_id = codes "dQw4w9WgXcQ";
  source_url = codes "https://www.youtube.com/watch?v=dQw4w9WgXcQ";
  state = State.collecting;
  stream_id = some 5;
  collection_job_id = some 3;
  scheduled_start_at = none;
  actual_start_at = none;
  actual_end_at = none;
  next_check_at = 100;
  last_checked_at = none;
  monitor_attempt = 0;
  last_error_code = none;
  last_error_message = none;
  last_error_retryable = none;
  worker_id = none;
  heartbeat_at = none;
  lease_expires_at = none;
  revision = 0;
  canceled_at = none;
  completed_at = none;
  failed_at = none;
  created_at = 100;
  updated_at = 100;
}

responses-Valid_example :
    (is_job_status (collection_job_response sample_string (scan_job done_job)).status ≡ true)
    × IfSome is_current_step
        (collection_job_response sample_string (scan_job done_job)).current_step
    × (is_reservation_state (reservation_response (scan_reservation reserved (some done_job))).state
        ≡ true)
    × IfSome is_job_status
        (reservation_response (scan_reservation reserved (some done_job))).collection_status
    × (is_lifecycle_status (metadata_response announced).lifecycle_status ≡ true)
unfolding normalize_metadata
responses-Valid_example =
    responses-Valid sample_string (scan_job done_job) reserved (some done_job) announced announced
      refl
