-- ===== src/Collections/Repository/Messages.antt =====
-- `ListMessages` and `SearchMessages` of apps/api/internal/collections/repository.go.
use stream_analysis_tools.Base.{
  ℕ, ◌^◌, ◌-◌, ℤ, pos, negsuc, pos_part, ltb_ℤ, eq_ℤ, Bool, ◌&&◌, ◌||◌, List, map, take, Option,
  none, some, Bytes, ltb, ◌==◌, if◌then◌else◌,
}
use stream_analysis_tools.Collections.Model.{ChatMessage, Cursor}
use stream_analysis_tools.Collections.Repository.Jobs.{require_stream}
use stream_analysis_tools.Collections.Repository.Like.{ilike, search_pattern}
use stream_analysis_tools.Errors.{Result, ok, err, database_error}
use stream_analysis_tools.Sql.Rows.{MessageRow, Database}
use stream_analysis_tools.Sql.Session.{Session, ◌>>◌, select}
use stream_analysis_tools.Sql.Table.{filter, order_by}

-- `rows.Scan` of both queries.
unfoldable pub scan_message : MessageRow → ChatMessage
scan_message m = record {
  id = m.id;
  author_channel_id = m.author_channel_id;
  author_display_name = m.author_display_name;
  message_text = m.message_text;
  published_at = m.published_at;
  offset_milliseconds = m.offset_milliseconds;
  message_type = m.message_type;
}

abbrev pub position_of : MessageRow → Cursor
position_of m = record { offset_milliseconds = m.offset_milliseconds; id = m.id }

-- (offset_milliseconds, id) > ($2, $3)
unfoldable pub is_after : Cursor → MessageRow → Bool
is_after c m =
    ltb_ℤ c.offset_milliseconds m.offset_milliseconds
    || (eq_ℤ c.offset_milliseconds m.offset_milliseconds && ltb c.id m.id)

-- ORDER BY offset_milliseconds, id
unfoldable pub message_before : MessageRow → MessageRow → Bool
unfolding is_after
message_before a b = is_after (position_of a) b

-- `offset := int64(-1 << 63)`, `id := uuid.Nil`, unless there is a cursor
unfoldable pub start_of : Option Cursor → Cursor
start_of none = record { offset_milliseconds = negsuc (2 ^ 63 - 1); id = 0 }
start_of (some cursor) = cursor

-- The rows of both queries; PostgreSQL refuses a negative LIMIT.
unfoldable pub message_rows :
    (MessageRow → Bool) → ℤ → Option Cursor → Database → Result (List ChatMessage)
unfolding message_before
message_rows test limit cursor db =
    if ltb_ℤ limit (pos 0)
    then err database_error
    else ok (
        map scan_message (
          take (pos_part limit) (
            order_by message_before
              (filter (λ m. test m && is_after (start_of cursor) m) db.messages))))

-- stream_id = $1
abbrev pub in_stream : ℕ → MessageRow → Bool
in_stream stream_id m = m.stream_id == stream_id

-- `ListMessages`
unfoldable pub list_messages : ℕ → ℤ → Option Cursor → Session Database (List ChatMessage)
unfolding message_rows
list_messages stream_id limit cursor = do
  require_stream stream_id
  select (message_rows (in_stream stream_id) limit cursor)

-- stream_id = $1 AND message_text ILIKE $2 ESCAPE '\'
abbrev pub matches : (ℕ → ℕ → Bool) → ℕ → Bytes → MessageRow → Bool
matches same stream_id query m =
    in_stream stream_id m && ilike same m.message_text (search_pattern query)

-- `SearchMessages`; `same` is the locale's notion of the same letter.
unfoldable pub search_messages :
    (ℕ → ℕ → Bool) → ℕ → Bytes → ℤ → Option Cursor → Session Database (List ChatMessage)
unfolding message_rows
search_messages same stream_id query limit cursor = do
  require_stream stream_id
  select (message_rows (matches same stream_id query) limit cursor)
