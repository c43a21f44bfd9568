-- ===== src/Collections/Service/Walk/Searched.antt =====
-- A client that searches a stream's messages with `SearchMessages` of
-- apps/api/internal/collections/service.go, page after page.
use stream_analysis_tools.Base.{
  ℕ, suc, ◌≤◌, pos, ◌≡◌, refl, sym, subst, ap, ◌∙◌, Bool, true, false, List, [], map, length,
  Option, none, is_some, All, arith, Bytes, ◌==◌,
}
use stream_analysis_tools.Collections.Cursor.{UuidText, decode_cursor}
use stream_analysis_tools.Collections.Model.{ChatMessage, Cursor}
use stream_analysis_tools.Collections.Repository.Jobs.{has_stream, require_stream}
use stream_analysis_tools.Collections.Repository.Messages
use stream_analysis_tools.Collections.Repository.Messages.{
  scan_message, is_after, start_of, message_rows, matches,
}
use stream_analysis_tools.Collections.Repository.Search.{containing, matches-containing}
use stream_analysis_tools.Collections.Repository.Timeline.{same_message}
use stream_analysis_tools.Collections.Service.{
  is_page_limit, is_query, message_page, read_page, search_messages,
}
use stream_analysis_tools.Collections.Service.Walk.{Positioned, follow_pages, follow_complete}
use stream_analysis_tools.Errors.{ok}
use stream_analysis_tools.Go.Strings.{trim_space}
use stream_analysis_tools.Sql.Rows.{Database}
use stream_analysis_tools.Sql.Session.{select, statement}
use stream_analysis_tools.Sql.Table.{find}
use stream_analysis_tools.Sql.Table.Distinct.{Distinct}

module _ (uuid_string : ℕ → Bytes) (uuid_parse : Bytes → Option ℕ) (same : ℕ → ℕ → Bool)
    (stream_id limit : ℕ) (query : Bytes) (db : Database)
    (known : is_some (find (has_stream stream_id) db.streams) ≡ true)
    (given : (stream_id == 0) ≡ false) (room : 1 ≤ limit) (bound : limit ≤ 100)
    (long : is_query (trim_space query) ≡ true) where
  search_messages-answers :
      (text : Bytes) (cursor : Option Cursor) (items : List ChatMessage)
      → decode_cursor uuid_parse text ≡ ok cursor
      → message_rows (matches same stream_id (trim_space query)) (pos (suc limit)) cursor db
        ≡ ok items
      → search_messages uuid_string uuid_parse same stream_id query
          (pos limit)
          text
          (record { db = db; faults = [] })
        ≡ (
          ok (message_page uuid_string uuid_parse (pos limit) items),
          record { db = db; faults = [] },
        )
  unfolding search_messages read_page Messages.search_messages require_stream select statement
  search_messages-answers text cursor items e f =
      let allowed : is_page_limit (pos limit) ≡ true = ground (arith, room, bound) in
      rw given (rw long (rw allowed (rw e (rw known (rw f refl)))))

-- A client that searches the messages of a stream and follows the texts of the cursors gets exactly
-- those whose text contains the query without the spaces around it, wildcards and backslashes taken
-- as they are written, for whatever letters the collation holds for the same: each one once, in the
-- order of offset and identifier, then a page without a next cursor; and no request changes the
-- database. It wants a query of 3 to 100 characters without those spaces, one request more than there
-- are such messages, and the conditions that a client who lists all messages wants.
pub search_messages_complete :
    (uuid_string : ℕ → Bytes) (uuid_parse : Bytes → Option ℕ) (same : ℕ → ℕ → Bool)
    (stream_id limit fuel : ℕ) (query : Bytes) (db : Database)
    → UuidText uuid_string uuid_parse
    → is_some (find (has_stream stream_id) db.streams) ≡ true
    → (stream_id == 0) ≡ false
    → 1 ≤ limit
    → limit ≤ 100
    → is_query (trim_space query) ≡ true
    → All Positioned db.messages
    → Distinct same_message db.messages
    → let rows = containing same stream_id (trim_space query) db in
      All (λ m. is_after (start_of none) m ≡ true) rows
      → length rows ≤ fuel
      → follow_pages uuid_string uuid_parse limit
          (search_messages uuid_string uuid_parse same stream_id query (pos limit))
          (suc fuel)
          []
          (record { db = db; faults = [] })
        ≡ (ok (map scan_message rows, true), record { db = db; faults = [] })
search_messages_complete uuid_string uuid_parse same stream_id limit fuel query db uuid known given
      room bound long positioned keys start enough =
    let e = matches-containing same stream_id (trim_space query) db in
    follow_complete uuid_string uuid_parse limit
      (search_messages uuid_string uuid_parse same stream_id query (pos limit)) uuid db
      (matches same stream_id (trim_space query)) positioned
      (search_messages-answers uuid_string uuid_parse same stream_id limit query db known given room
        bound long)
      fuel room keys (subst (All λ m. is_after (start_of none) m ≡ true) (sym e) start)
      (subst (λ ms. length ms ≤ fuel) (sym e) enough)
    ∙ ap (λ ms. (ok (map scan_message ms, true), record { db = db; faults = [] })) e
