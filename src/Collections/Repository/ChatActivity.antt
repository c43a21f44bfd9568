-- ===== src/Collections/Repository/ChatActivity.antt =====
-- apps/api/internal/collections/activity.go: the query of `ChatActivity`, clause by clause.
use stream_analysis_tools.Base.{
  ℕ, zero, suc, ◌+◌, ◌-◌, ◌*◌, ◌/◌, ℤ, pos, negsuc, pos_part, ltb_ℤ, Bool, List, [], ◌∷◌, map,
  Option, none, some, ltb, ◌==◌, if◌then◌else◌,
}
use stream_analysis_tools.Collections.Model.{ActivityBucket}
use stream_analysis_tools.Collections.Repository.Jobs.{require_stream, has_stream}
use stream_analysis_tools.Collections.Repository.Messages.{in_stream}
use stream_analysis_tools.Errors.{ok}
use stream_analysis_tools.Sql.Rows.{MessageRow, StreamRow, Database}
use stream_analysis_tools.Sql.Session.{Session, ◌>>◌, select}
use stream_analysis_tools.Sql.Table.{find, filter, count}

-- offset + 1, and the larger of two integers
abbrev next_ℤ : ℤ → ℤ
next_ℤ (pos n) = pos (suc n)
next_ℤ (negsuc zero) = pos 0
next_ℤ (negsuc (suc n)) = negsuc n

abbrev later : ℤ → Option ℤ → Option ℤ
later a none = some a
later a (some b) = if ltb_ℤ a b then some b else some a

-- MAX(offset_milliseconds)
unfoldable pub last_offset : List MessageRow → Option ℤ
last_offset [] = none
last_offset (m ∷ ms) = later m.offset_milliseconds (last_offset ms)

-- COALESCE(duration_ms, (SELECT MAX(offset_milliseconds) + 1 …), 0)
abbrev measured : Option ℤ → Option ℤ → ℤ
measured (some d) last = d
measured none none = pos 0
measured none (some offset) = next_ℤ offset

-- The messages whose `(GREATEST(offset_milliseconds, 0) / $2) * $2` is the start of the bucket.
abbrev pub in_bucket : ℕ → ℕ → MessageRow → Bool
in_bucket width start m = (pos_part m.offset_milliseconds / width * width) == start

-- generate_series(start, last, width), of `rounds` values at most
unfoldable pub series : ℕ → ℕ → ℕ → ℕ → List ℕ
series zero start last width = []
series (suc rounds) start last width =
    let rest = series rounds (start + width) last width in
    if ltb last start then [] else start ∷ rest

-- One row of the answer: the bucket with its count, or with 0 where the count is missing.
abbrev pub bucket_at : ℕ → List MessageRow → ℕ → ActivityBucket
bucket_at width messages start = record {
  start_offset_milliseconds = start;
  message_count = count (in_bucket width start) messages;
}

-- The rows, WHERE bounds.duration_ms > 0
unfoldable pub bucket_rows : ℕ → List MessageRow → ℤ → List ActivityBucket
unfolding series
bucket_rows width messages duration =
    if ltb_ℤ (pos 0) duration
    then map (bucket_at width messages) (series (pos_part duration) 0 (pos_part duration - 1) width)
    else []

abbrev of_stream : ℕ → List MessageRow → Option StreamRow → List ActivityBucket
of_stream width messages none = []
of_stream width messages (some s) =
    bucket_rows width messages (measured s.duration_ms (last_offset messages))

-- `ChatActivity`
unfoldable pub chat_activity : ℕ → ℕ → Session Database (List ActivityBucket)
unfolding bucket_rows last_offset
chat_activity stream_id bucket_seconds = do
  require_stream stream_id
  select λ db. ok (
      of_stream (bucket_seconds * 1000) (filter (in_stream stream_id) db.messages)
        (find (has_stream stream_id) db.streams))
