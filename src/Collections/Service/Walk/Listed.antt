-- ===== src/Collections/Service/Walk/Listed.antt =====
-- A client that lists a stream's messages with `ListMessages` of
-- apps/api/internal/collections/service.go, page after page.
use stream_analysis_tools.Base.{
  ℕ, suc, ◌≤◌, pos, ◌≡◌, refl, true, false, List, [], map, length, Option, none, is_some, All,
  arith, Bytes, ◌==◌,
}
use stream_analysis_tools.Collections.Cursor.{UuidText, decode_cursor}
use stream_analysis_tools.Collections.Model.{ChatMessage, Cursor}
use stream_analysis_tools.Collections.Repository.Jobs.{has_stream, require_stream}
use stream_analysis_tools.Collections.Repository.Messages
use stream_analysis_tools.Collections.Repository.Messages.{
  scan_message, is_after, message_before, start_of, message_rows, in_stream,
}
use stream_analysis_tools.Collections.Repository.Timeline.{same_message}
use stream_analysis_tools.Collections.Service.{
  is_page_limit, message_page, read_page, list_messages,
}
use stream_analysis_tools.Collections.Service.Walk.{Positioned, follow_pages, follow_complete}
use stream_analysis_tools.Errors.{ok}
use stream_analysis_tools.Sql.Rows.{Database}
use stream_analysis_tools.Sql.Session.{select, statement}
use stream_analysis_tools.Sql.Table.{find, filter, order_by}
use stream_analysis_tools.Sql.Table.Distinct.{Distinct}

module _ (uuid_string : ℕ → Bytes) (uuid_parse : Bytes → Option ℕ) (stream_id limit : ℕ)
    (db : Database) (known : is_some (find (has_stream stream_id) db.streams) ≡ true)
    (given : (stream_id == 0) ≡ false) (room : 1 ≤ limit) (bound : limit ≤ 100) where
  list_messages-answers :
      (text : Bytes) (cursor : Option Cursor) (items : List ChatMessage)
      → decode_cursor uuid_parse text ≡ ok cursor
      → message_rows (in_stream stream_id) (pos (suc limit)) cursor db ≡ ok items
      → list_messages uuid_string uuid_parse stream_id
          (pos limit)
          text
          (record { db = db; faults = [] })
        ≡ (
          ok (message_page uuid_string uuid_parse (pos limit) items),
          record { db = db; faults = [] },
        )
  unfolding list_messages read_page Messages.list_messages require_stream select statement
  list_messages-answers text cursor items e f =
      let allowed : is_page_limit (pos limit) ≡ true = ground (arith, room, bound) in
      rw given (rw allowed (rw e (rw known (rw f refl))))

-- A client that lists the messages of a stream and follows the texts of the cursors gets all of them,
-- each one once, in the order of offset and identifier, then a page without a next cursor, and no
-- request changes the database. It wants a stream that is there, whose identifier is not the nil
-- UUID, a limit of 1 to 100, messages of different identifiers that stand after the start and whose
-- offsets and identifiers fit 64 and 128 bits, a package uuid that reads what it writes, a database
-- that answers, and one request more than there are messages.
pub list_messages_complete :
    (uuid_string : ℕ → Bytes) (uuid_parse : Bytes → Option ℕ) (stream_id limit fuel : ℕ)
    (db : Database)
    → UuidText uuid_string uuid_parse
    → is_some (find (has_stream stream_id) db.streams) ≡ true
    → (stream_id == 0) ≡ false
    → 1 ≤ limit
    → limit ≤ 100
    → All Positioned db.messages
    → Distinct same_message db.messages
    → let rows = order_by message_before (filter (in_stream stream_id) db.messages) in
      All (λ m. is_after (start_of none) m ≡ true) rows
      → length rows ≤ fuel
      → follow_pages uuid_string uuid_parse limit
          (list_messages uuid_string uuid_parse stream_id (pos limit))
          (suc fuel)
          []
          (record { db = db; faults = [] })
        ≡ (ok (map scan_message rows, true), record { db = db; faults = [] })
list_messages_complete uuid_string uuid_parse stream_id limit fuel db uuid known given room bound
      positioned keys start enough =
    follow_complete uuid_string uuid_parse limit
      (list_messages uuid_string uuid_parse stream_id (pos limit)) uuid db (in_stream stream_id)
      positioned
      (list_messages-answers uuid_string uuid_parse stream_id limit db known given room bound) fuel
      room keys start enough
