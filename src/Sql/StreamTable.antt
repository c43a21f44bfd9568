-- ===== src/Sql/StreamTable.antt =====
-- stream.streams (migrations/000001): a metadata record as a row, the CHECK constraints, and the
-- INSERT … ON CONFLICT (youtube_video_id) that two packages send.
use stream_analysis_tools.Base.{
  ℕ, ℤ, pos, div_ℤ, ltb_ℤ, Bool, true, false, not, ◌&&◌, Bytes, bytes_eq, char_length, ◌∷◌, Option,
  none, some, Time, ◌==◌, ltb, leb, millisecond, is_some, if◌then◌else◌,
}
use stream_analysis_tools.Errors.{Result, ok, err, unique_violation, check_violation}
use stream_analysis_tools.Sql.Rows.{StreamRow, Database}
use stream_analysis_tools.Sql.Session.{Session, statement}
use stream_analysis_tools.Sql.Table.{find, update}
use stream_analysis_tools.Streams.Model.{LifecycleStatus, Metadata}

-- `durationMilliseconds`
unfoldable pub duration_milliseconds : Option ℤ → Option ℤ
duration_milliseconds none = none
duration_milliseconds (some d) = some (div_ℤ d millisecond)

unfoldable pub row_of_metadata : ℕ → Metadata → Time → StreamRow
unfolding duration_milliseconds
row_of_metadata id m now = record {
  id = id;
  youtube_video_id = m.youtube_video_id;
  canonical_url = m.canonical_url;
  title = m.title;
  channel_id = m.channel_id;
  channel_title = m.channel_title;
  thumbnail_url = m.thumbnail_url;
  scheduled_start_at = m.scheduled_start_at;
  actual_start_at = m.actual_start_at;
  actual_end_at = m.actual_end_at;
  duration_ms = duration_milliseconds m.duration;
  lifecycle_status = m.lifecycle_status;
  metadata_fetched_at = m.metadata_fetched_at;
  created_at = now;
  updated_at = now;
}

abbrev pub nonnegative : Option ℤ → Bool
nonnegative none = true
nonnegative (some d) = not (ltb_ℤ d (pos 0))

abbrev pub in_order : Option Time → Option Time → Bool
in_order (some start) (some end_at) = leb start end_at
in_order _ _ = true

-- The lifecycle values of streams_lifecycle_status_check.
unfoldable pub is_stored_status : LifecycleStatus → Bool
is_stored_status LifecycleStatus.blank = false
is_stored_status (LifecycleStatus.unsupported text) = false
is_stored_status _ = true

-- The CHECK constraints of the table.
unfoldable pub stream_checks : StreamRow → Bool
unfolding is_stored_status
stream_checks r =
    ltb 0 (char_length r.youtube_video_id)
    && leb (char_length r.youtube_video_id) 64
    && ltb 0 (char_length r.canonical_url)
    && ltb 0 (char_length r.title)
    && ltb 0 (char_length r.channel_id)
    && ltb 0 (char_length r.channel_title)
    && nonnegative r.duration_ms
    && in_order r.actual_start_at r.actual_end_at
    && is_stored_status r.lifecycle_status

abbrev pub has_video : Bytes → StreamRow → Bool
has_video video_id r = bytes_eq r.youtube_video_id video_id

-- SET canonical_url = EXCLUDED.canonical_url, …, updated_at = …
unfoldable pub merged : StreamRow → Time → StreamRow → StreamRow
merged new now old = record new { id = old.id; created_at = old.created_at; updated_at = now }

abbrev pub insert_on : StreamRow → Database → Bool → Result (StreamRow × Database)
insert_on row db true = err (unique_violation "streams_pkey")
insert_on row db false = ok (row, record db { streams = row ∷ db.streams })

abbrev pub upsert_on :
    StreamRow → Time → Database → Option StreamRow → Result (StreamRow × Database)
upsert_on row updated_at db none =
    insert_on row db (is_some (find (λ s. s.id == row.id) db.streams))
upsert_on row updated_at db (some old) = ok (
  merged row updated_at old,
  record db {
    streams = update (has_video row.youtube_video_id) (merged row updated_at) db.streams;
  },
)

-- INSERT … ON CONFLICT (youtube_video_id) DO UPDATE SET …; `id` and `now` are what
-- gen_random_uuid() and CURRENT_TIMESTAMP give.
abbrev pub upsertion : StreamRow → Time → Database → Result (StreamRow × Database)
upsertion row updated_at db =
    if stream_checks row
    then upsert_on row updated_at db (find (has_video row.youtube_video_id) db.streams)
    else err (check_violation "stream.streams")

unfoldable pub upsert_stream : ℕ → Metadata → Time → Time → Session Database StreamRow
unfolding statement
upsert_stream id m updated_at now = statement (upsertion (row_of_metadata id m now) updated_at)
