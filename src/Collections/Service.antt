-- ===== src/Collections/Service.antt =====
-- apps/api/internal/collections/service.go over the repository of this model. The identifier 0 is
-- uuid.Nil. The texts of UUIDs are arguments.
pub mod Walk
use stream_analysis_tools.Base.{
  ℕ, suc, ℤ, pos, pos_part, ltb_ℤ, eq_ℤ, Bool, not, ◌||◌, Bytes, List, [], ◌∷◌, take, length,
  Option, none, some, Time, ltb, ◌==◌, if◌then◌else◌,
}
use stream_analysis_tools.Collections.Cursor.{encode_cursor, decode_cursor}
use stream_analysis_tools.Collections.Model.{
  Job, ChatMessage, Cursor, MessagePage, ActivityBucket, Activity,
}
use stream_analysis_tools.Collections.Repository.ChatActivity
use stream_analysis_tools.Collections.Repository.Messages
use stream_analysis_tools.Collections.Repository.Jobs
use stream_analysis_tools.Errors.{invalid_request}
use stream_analysis_tools.Sql.Rows.{Database}
use stream_analysis_tools.Sql.Session.{Session, pure, raise, lift, ◌>>=◌}
use stream_analysis_tools.Go.Strings.{trim_space, rune_count}

-- `Start`
unfoldable pub start : ℕ → Time → ℕ → Session Database Job
start fresh now stream_id =
    if stream_id == 0 then raise invalid_request else Jobs.start fresh now stream_id

-- `Latest`
unfoldable pub latest : ℕ → Session Database Job
latest stream_id = if stream_id == 0 then raise invalid_request else Jobs.latest stream_id

-- `Retry`
unfoldable pub retry : ℕ → Time → ℕ → Session Database Job
retry fresh now job_id = if job_id == 0 then raise invalid_request else Jobs.retry fresh now job_id

-- The end of a page, whose next cursor is not encoded yet.
abbrev pub last_position : List ChatMessage → Option Cursor
last_position [] = none
last_position (m ∷ []) = some (record { offset_milliseconds = m.offset_milliseconds; id = m.id })
last_position (m ∷ n ∷ ms) = last_position (n ∷ ms)

-- `page := MessagePage{Items: items}; if len(items) > limit { … }`
unfoldable pub page_of : ℕ → List ChatMessage → List ChatMessage × Option Cursor
page_of limit items =
    if ltb limit (length items)
    then (take limit items, last_position (take limit items))
    else (items, none)

-- limit < 1 || limit > MaxMessageLimit
abbrev pub is_page_limit : ℤ → Bool
is_page_limit limit = not (ltb_ℤ limit (pos 1) || ltb_ℤ (pos 100) limit)

abbrev pub encoded : (Cursor → Bytes) → List ChatMessage × Option Cursor → MessagePage
encoded encode (items, none) = record { items = items; next_cursor = none }
encoded encode (items, some cursor) = record { items = items; next_cursor = some (encode cursor) }

-- queryLength < MinSearchQueryLength || queryLength > MaxSearchQueryLength
abbrev pub is_query : Bytes → Bool
is_query query = not (ltb (rune_count query) 3 || ltb 100 (rune_count query))

module _ (uuid_string : ℕ → Bytes) (uuid_parse : Bytes → Option ℕ) where
  -- The page of the rows, of which one more than `limit` was asked for.
  unfoldable pub message_page : ℤ → List ChatMessage → MessagePage
  message_page limit items = encoded (encode_cursor uuid_string) (page_of (pos_part limit) items)

  unfoldable pub read_page :
      (ℤ → Option Cursor → Session Database (List ChatMessage))
      → ℤ
      → Bytes
      → Session Database MessagePage
  unfolding message_page
  read_page read limit text = do
    cursor ← lift (decode_cursor uuid_parse text)
    items ← read (pos (suc (pos_part limit))) cursor
    pure (message_page limit items)

  -- `ListMessages`
  unfoldable pub list_messages : ℕ → ℤ → Bytes → Session Database MessagePage
  unfolding read_page
  list_messages stream_id limit text =
      if stream_id == 0
      then raise invalid_request
      else if not (is_page_limit limit)
      then raise invalid_request
      else read_page (Messages.list_messages stream_id) limit text

  -- `SearchMessages`
  unfoldable pub search_messages :
      (ℕ → ℕ → Bool) → ℕ → Bytes → ℤ → Bytes → Session Database MessagePage
  unfolding read_page
  search_messages same stream_id query limit text =
      if stream_id == 0
      then raise invalid_request
      else if not (is_query (trim_space query))
      then raise invalid_request
      else if not (is_page_limit limit)
      then raise invalid_request
      else read_page (Messages.search_messages same stream_id (trim_space query)) limit text

-- bucketSeconds != 5 && bucketSeconds != 10 && bucketSeconds != 30
abbrev pub is_bucket : ℤ → Bool
is_bucket seconds = eq_ℤ seconds (pos 5) || eq_ℤ seconds (pos 10) || eq_ℤ seconds (pos 30)

abbrev measured : ℤ → Session Database (List ActivityBucket) → Session Database Activity
measured bucket_seconds read = do
  items ← read
  pure (record { bucket_seconds = bucket_seconds; items = items })

-- `ChatActivity`
unfoldable pub chat_activity : ℕ → ℤ → Session Database Activity
chat_activity stream_id bucket_seconds =
    if stream_id == 0
    then raise invalid_request
    else if not (is_bucket bucket_seconds)
    then raise invalid_request
    else measured bucket_seconds (ChatActivity.chat_activity stream_id (pos_part bucket_seconds))
