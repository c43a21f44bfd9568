-- ===== src/Collections/Examples.antt =====
-- The theorems on the collections at concrete databases.
use stream_analysis_tools.Base.{
  ℕ, pos, true, ◌≡◌, refl, [], ◌∷◌, map, none, some, arith, codes, ◌==◌, ltb, pos_part, ◌/◌, ◌*◌,
}
use stream_analysis_tools.Collections.Model.{JobStatus, Job}
use stream_analysis_tools.Collections.Repository.Jobs.{
  start, retry, lock_stream, find_active_job, scan_job,
}
use stream_analysis_tools.Collections.Repository.Like.{
  ilike, search_pattern, contains, ilike-search_pattern,
}
use stream_analysis_tools.Collections.Repository.Messages.{
  scan_message, message_before, in_stream, is_after, start_of,
}
use stream_analysis_tools.Collections.Repository.Pages.{pages, pages_complete}
use stream_analysis_tools.Collections.Repository.Pending.{Started}
use stream_analysis_tools.Collections.Repository.Retry.{Retried, retry-Retried}
use stream_analysis_tools.Collections.Repository.Start.{start-Started, start_idempotent}
use stream_analysis_tools.Collections.Cursor.{
  encode_cursor, decode_cursor, decode_cursor-encode_cursor,
}
use stream_analysis_tools.Collections.Model.{Cursor}
use stream_analysis_tools.Collections.Repository.Activity.{total, total-bucket_rows}
use stream_analysis_tools.Collections.Repository.ChatActivity.{bucket_rows}
use stream_analysis_tools.Collections.Repository.Search.{containing}
use stream_analysis_tools.Collections.Service.{list_messages, search_messages}
use stream_analysis_tools.Go.Strings.{
  trim_space, skip, backwards, space_width, last_space_width, rune_count,
}
use stream_analysis_tools.Collections.Service.Walk.Listed.{list_messages_complete}
use stream_analysis_tools.Collections.Service.Walk.Searched.{search_messages_complete}
use stream_analysis_tools.Collections.Service.Walk.{follow_pages}
use stream_analysis_tools.Samples.{sample_string, sample_parse, sample_text}
use stream_analysis_tools.Sql.Table.{count}
use stream_analysis_tools.Errors.{ok}
use stream_analysis_tools.Sql.Jobs.{new_job, pending_for, insert_job}
use stream_analysis_tools.Sql.Rows.{JobRow, MessageRow, StreamRow, Database}
use stream_analysis_tools.Sql.Session.{World, transact, select}
use stream_analysis_tools.Sql.Session.Ensures.{After}
use stream_analysis_tools.Sql.Table.{filter, order_by, insert_by, find, first_by}
use stream_analysis_tools.Streams.Model.{LifecycleStatus}

abbrev talk : StreamRow
talk = record {
  id = 5;
  youtube_video_id = codes "dQw4w9WgXcQ";
  canonical_url = codes "https://www.youtube.com/watch?v=dQw4w9WgXcQ";
  title = codes "A stream";
  channel_id = codes "UC1";
  channel_title = codes "A channel";
  thumbnail_url = none;
  scheduled_start_at = none;
  actual_start_at = none;
  actual_end_at = none;
  duration_ms = none;
  lifecycle_status = LifecycleStatus.ended;
  metadata_fetched_at = 10;
  created_at = 10;
  updated_at = 10;
}

abbrev chat : ℕ → ℕ → MessageRow
chat id offset = record {
  id = id;
  stream_id = 5;
  author_channel_id = none;
  author_display_name = codes "someone";
  message_text = codes "100% true";
  published_at = 20;
  offset_milliseconds = pos offset;
  message_type = "text";
}

abbrev broken_job : JobRow
broken_job = record (new_job 3 5 none 10) {
  status = JobStatus.failed;
  attempt = 1;
  error_code = some "YTDLP_TIMEOUT";
}

abbrev stored : Database
stored = record {
  reservations = [];
  transitions = [];
  jobs = broken_job ∷ [];
  streams = talk ∷ [];
  messages = chat 2 40 ∷ chat 1 40 ∷ chat 3 7 ∷ [];
}

abbrev online : World Database
online = record { db = stored; faults = [] }

abbrev place : Cursor
place = record { offset_milliseconds = pos 40; id = 2 }

pages_complete_example :
    pages (in_stream 5) 2 stored 4 none
    ≡ ok (map scan_message (order_by message_before (filter (in_stream 5) stored.messages)), true)
unfolding filter order_by insert_by message_before is_after start_of
pages_complete_example =
    pages_complete (in_stream 5) 2 3 stored ((refl, (refl, tt)), ((refl, tt), (tt, tt)))
      (refl, (refl, (refl, tt))) (omega arith) (omega arith)

ilike-search_pattern_example :
    ilike ◌==◌ (codes "100% true") (search_pattern (codes "0% t"))
    ≡ contains ◌==◌ (codes "0% t") (codes "100% true")
ilike-search_pattern_example = ilike-search_pattern ◌==◌ (codes "0% t") (codes "100% true")

start-Started_example : After (Started 9 5 50 stored) (λ db. db ≡ stored) (start 9 50 5 online)
start-Started_example = start-Started 9 5 50 online

retry-Retried_example : After (Retried 9 50 3 stored) (λ db. db ≡ stored) (retry 9 50 3 online)
retry-Retried_example = retry-Retried 9 50 3 online

abbrev fresh_job : Job
fresh_job = scan_job (new_job 9 5 none 50)

start_idempotent_example :
    (fresh_job ≡ fresh_job)
    × ((start 11 60 5 (record (start 9 50 5 online).1 { faults = [] })).1.db
        ≡ (start 9 50 5 online).1.db)
unfolding start transact lock_stream select find find_active_job first_by pending_for new_job
    insert_job
start_idempotent_example = start_idempotent 5 9 11 50 60 online [] fresh_job fresh_job refl refl

decode_cursor-encode_cursor_example :
    decode_cursor sample_parse (encode_cursor sample_string place) ≡ ok (some place)
decode_cursor-encode_cursor_example =
    decode_cursor-encode_cursor sample_string sample_parse sample_text place
      (omega arith, omega arith)

list_messages_complete_example :
    follow_pages sample_string sample_parse 2
      (list_messages sample_string sample_parse 5 (pos 2))
      4
      []
      online
    ≡ (
      ok (map scan_message (order_by message_before (filter (in_stream 5) stored.messages)), true),
      online,
    )
unfolding filter order_by insert_by message_before is_after start_of find
list_messages_complete_example =
    list_messages_complete sample_string sample_parse 5 2 3 stored sample_text refl refl
      (omega arith) (omega arith)
      ((omega arith, omega arith), ((omega arith, omega arith), ((omega arith, omega arith), tt)))
      ((refl, (refl, tt)), ((refl, tt), (tt, tt))) (refl, (refl, (refl, tt))) (omega arith)

search_messages_complete_example :
    follow_pages sample_string sample_parse 2
      (search_messages sample_string sample_parse ◌==◌ 5 (codes " 0% t") (pos 2))
      4
      []
      online
    ≡ (ok (map scan_message (containing ◌==◌ 5 (trim_space (codes " 0% t")) stored), true), online)
unfolding filter order_by insert_by message_before is_after start_of contains find trim_space skip
    backwards space_width last_space_width rune_count
search_messages_complete_example =
    search_messages_complete sample_string sample_parse ◌==◌ 5 2 3 (codes " 0% t") stored
      sample_text refl refl (omega arith) (omega arith) refl
      ((omega arith, omega arith), ((omega arith, omega arith), ((omega arith, omega arith), tt)))
      ((refl, (refl, tt)), ((refl, tt), (tt, tt))) (refl, (refl, (refl, tt))) (omega arith)

total-bucket_rows_example :
    total (bucket_rows 5000 stored.messages (pos 60_000))
    ≡ count (λ m. ltb (pos_part m.offset_milliseconds / 5000 * 5000) 60_000) stored.messages
total-bucket_rows_example =
    total-bucket_rows 5000 60_000 stored.messages (omega arith) (omega arith)
