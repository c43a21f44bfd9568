-- ===== src/Streams/Repository.antt =====
-- apps/api/internal/streams/repository.go
use stream_analysis_tools.Base.{
  ℕ, ◌+◌, ◌*◌, ◌-◌, ◌^◌, ◌%◌, ℤ, pos, negsuc, pos_part, sub_ℕ, Bool, ◌&&◌, ◌||◌, List, ◌∷◌, map,
  take, drop, Option, none, some, Bytes, String, str_eq, Time, ◌==◌, ltb, millisecond, is_some,
  if◌then◌else◌,
}
use stream_analysis_tools.Errors.{
  Error, Result, ok, err, no_rows, unique_violation, check_violation, stream_not_found,
  youtube_video_id_exists,
}
use stream_analysis_tools.Reservations.Repository.Rows.{or_no_rows, status_text}
use stream_analysis_tools.Sql.Rows.{StreamRow, JobRow, Database}
use stream_analysis_tools.Sql.Session.{Session, pure, lift, map_err, ◌>>=◌, ◌>>◌, statement, select}
use stream_analysis_tools.Sql.StreamTable.{row_of_metadata, stream_checks, has_video, upsert_stream}
use stream_analysis_tools.Sql.Table.{find, count, first_by, order_by}
use stream_analysis_tools.Streams.Model.{Stream, ListItem, Metadata, ListOptions}
use stream_analysis_tools.Streams.Normalize.{normalize_metadata, validate_list_options}

-- A 64-bit product wraps around.
unfoldable pub wrap_64 : ℤ → ℤ
wrap_64 (pos n) =
    if ltb (n % 2 ^ 64) (2 ^ 63) then pos (n % 2 ^ 64) else sub_ℕ (n % 2 ^ 64) (2 ^ 64)
wrap_64 (negsuc n) =
    if ltb (n % 2 ^ 64) (2 ^ 63) then negsuc (n % 2 ^ 64) else pos (2 ^ 64 - 1 - n % 2 ^ 64)

abbrev times : ℤ → ℕ → ℤ
times (pos n) k = pos (n * k)
times (negsuc n) k = sub_ℕ 0 (n * k + k)

-- `durationPointer`
unfoldable pub duration_pointer : Option ℤ → Option ℤ
unfolding wrap_64
duration_pointer none = none
duration_pointer (some ms) = some (wrap_64 (times ms millisecond))

-- `scanStream`, with `applyNullableStreamFields`
unfoldable pub scan_stream : StreamRow → Stream
unfolding duration_pointer
scan_stream r = record {
  id = r.id;
  youtube_video_id = r.youtube_video_id;
  canonical_url = r.canonical_url;
  title = r.title;
  channel_id = r.channel_id;
  channel_title = r.channel_title;
  thumbnail_url = r.thumbnail_url;
  scheduled_start_at = r.scheduled_start_at;
  actual_start_at = r.actual_start_at;
  actual_end_at = r.actual_end_at;
  duration = duration_pointer r.duration_ms;
  lifecycle_status = r.lifecycle_status;
  metadata_fetched_at = r.metadata_fetched_at;
  created_at = r.created_at;
  updated_at = r.updated_at;
}

-- INSERT … RETURNING, without ON CONFLICT
abbrev pub new_stream : StreamRow → Database → Result (StreamRow × Database)
new_stream row db =
    if stream_checks row
    then if is_some (find (λ s. s.id == row.id) db.streams)
      then err (unique_violation "streams_pkey")
      else if is_some (find (has_video row.youtube_video_id) db.streams)
      then err (unique_violation "streams_youtube_video_id_key")
      else ok (row, record db { streams = row ∷ db.streams })
    else err (check_violation "stream.streams")

-- `isYouTubeVideoIDConflict`, and what `Create` makes of it
abbrev pub create_error : Error → Error
create_error (unique_violation name) =
    if str_eq name "streams_youtube_video_id_key"
    then youtube_video_id_exists
    else unique_violation name
create_error e = e

-- `Create`
unfoldable pub create : ℕ → Time → Metadata → Session Database Stream
create fresh now metadata = do
  m ← lift (normalize_metadata metadata)
  row ← map_err create_error (statement (new_stream (row_of_metadata fresh m now)))
  pure (scan_stream row)

-- `Upsert`
unfoldable pub upsert : ℕ → Time → Metadata → Session Database Stream
upsert fresh now metadata = do
  m ← lift (normalize_metadata metadata)
  row ← upsert_stream fresh m now now
  pure (scan_stream row)

-- `mapReadResult`
abbrev pub read_error : Error → Error
read_error no_rows = stream_not_found
read_error e = e

abbrev pub has_key : ℕ → StreamRow → Bool
has_key id s = s.id == id

-- `Get`
unfoldable pub get : ℕ → Session Database Stream
get id = do
  row ← map_err read_error (select λ db. or_no_rows (find (has_key id) db.streams))
  pure (scan_stream row)

-- `GetByYouTubeVideoID`
unfoldable pub get_by_youtube_video_id : Bytes → Session Database Stream
get_by_youtube_video_id video_id = do
  row ← map_err read_error (select λ db. or_no_rows (find (has_video video_id) db.streams))
  pure (scan_stream row)

-- ORDER BY created_at DESC, id DESC
unfoldable pub created_after : StreamRow → StreamRow → Bool
created_after a b = ltb b.created_at a.created_at || (a.created_at == b.created_at && ltb b.id a.id)

-- ORDER BY … LIMIT $1 OFFSET $2, of options that have been validated
unfoldable pub listed_rows : ListOptions → Database → List StreamRow
unfolding created_after
listed_rows options db =
    take (pos_part options.limit)
      (drop (pos_part options.offset) (order_by created_after db.streams))

-- `List`
unfoldable pub list : ListOptions → Session Database (List Stream)
unfolding listed_rows
list options = do
  lift (validate_list_options options)
  select λ db. ok (map scan_stream (listed_rows options db))

-- The first subquery of `ListItems`.
unfoldable pub latest_before : JobRow → JobRow → Bool
latest_before a b =
    ltb b.requested_at a.requested_at || (a.requested_at == b.requested_at && ltb b.id a.id)

abbrev pub collection_status_of : Option JobRow → Option String
collection_status_of none = none
collection_status_of (some j) = some (status_text j.status)

-- `scanListItem`
unfoldable pub scan_list_item : Database → StreamRow → ListItem
unfolding latest_before
scan_list_item db r = record {
  stream = scan_stream r;
  collection_status =
      collection_status_of (first_by latest_before (λ j. j.stream_id == r.id) db.jobs);
  chat_message_count = count (λ m. m.stream_id == r.id) db.messages;
}

-- `ListItems`
unfoldable pub list_items : ListOptions → Session Database (List ListItem)
unfolding listed_rows scan_list_item
list_items options = do
  lift (validate_list_options options)
  select λ db. ok (map (scan_list_item db) (listed_rows options db))
