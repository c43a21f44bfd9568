-- ===== src/Collections/Service/Walk.antt =====
-- A client of `ListMessages` or `SearchMessages` of apps/api/internal/collections/service.go that
-- follows the texts of the cursors.
pub mod Listed
pub mod Searched
use stream_analysis_tools.Base.{
  ℕ, zero, suc, ◌≤◌, pos, ltb_ℤ, ◌≡◌, refl, ap, ◌∙◌, inl, inr, true, false, ◌&&◌, List, [], ◌∷◌,
  ◌++◌, Bool, map, take, length, Option, none, some, is_some, All, arith, Bytes, ltb, ◌==◌,
  Bool-cases, subst,
}
use stream_analysis_tools.Collections.Cursor.{
  UuidText, InRange, encode_cursor, decode_cursor, decode_cursor-encode_cursor,
}
use stream_analysis_tools.Collections.Model.{ChatMessage, Cursor, MessagePage}
use stream_analysis_tools.Collections.Repository.Jobs.{has_stream, require_stream}
use stream_analysis_tools.Collections.Repository.Messages
use stream_analysis_tools.Collections.Repository.Messages.{
  scan_message, position_of, is_after, message_before, start_of, message_rows, in_stream,
}
use stream_analysis_tools.Collections.Repository.Pages.{onto, joined, pages, pages_complete}
use stream_analysis_tools.Collections.Repository.Timeline.{same_message}
use stream_analysis_tools.Collections.Service.{
  encoded, last_position, page_of, is_page_limit, message_page, read_page, list_messages,
}
use stream_analysis_tools.Errors
use stream_analysis_tools.Errors.{Result, ok, err}
use stream_analysis_tools.Sql.Rows.{MessageRow, Database}
use stream_analysis_tools.Sql.Session.{World, Session, pure, continue, ◌>>=◌, select, statement}
use stream_analysis_tools.Sql.Table.{find, filter, order_by}
use stream_analysis_tools.Sql.Table.Distinct.{Distinct}
use stream_analysis_tools.Sql.Table.Order.{All-filter, All-order_by}

-- A position that the database's types and the package uuid allow.
abbrev pub Positioned : MessageRow → Type 0
Positioned m = InRange (position_of m)

abbrev InPlace : ChatMessage → Type 0
InPlace m = InRange (record { offset_milliseconds = m.offset_milliseconds; id = m.id })

last_position-InRange :
    (ms : List ChatMessage) (c : Cursor) → All InPlace ms → last_position ms ≡ some c → InRange c
last_position-InRange [] c h e = cc
last_position-InRange (m ∷ []) c h e = subst InRange (ground arith) h.0
last_position-InRange (m ∷ n ∷ ms) c h e = last_position-InRange (n ∷ ms) c h.1 e

All-take : (n : ℕ) (ms : List ChatMessage) → All InPlace ms → All InPlace (take n ms)
All-take zero ms h = tt
All-take (suc n) [] h = tt
All-take (suc n) (m ∷ ms) h = (h.0, All-take n ms h.1)

page_of-InRange :
    (limit : ℕ) (items : List ChatMessage) (c : Cursor)
    → All InPlace items
    → (page_of limit items).1 ≡ some c
    → InRange c
unfolding page_of
page_of-InRange limit items c h e = elim (Bool-cases (ltb limit (length items))) [
  | inl more ↦ last_position-InRange (take limit items) c (All-take limit items h) (rw more at e)
  | inr less ↦ absurd (ground (arith, less, e))
]

scanned :
    (n : ℕ) (ms : List MessageRow) → All Positioned ms → All InPlace (map scan_message (take n ms))
unfolding scan_message
scanned zero ms h = tt
scanned (suc n) [] h = tt
scanned (suc n) (m ∷ ms) h = (h.0, scanned n ms h.1)

module _ (uuid_string : ℕ → Bytes) (uuid_parse : Bytes → Option ℕ) (limit : ℕ) where
  module _ (request : Bytes → Session Database MessagePage) where
    abbrev pub further :
        (Bytes → Session Database (List ChatMessage × Bool))
        → MessagePage
        → Option Bytes
        → Session Database (List ChatMessage × Bool)
    further others page none = pure (page.items, true)
    further others page (some text) = others text >>= λ rest. pure (onto page.items rest)

    -- One request after the other, of which `fuel` bounds the number: the messages of all pages, and
    -- whether the last page had no next cursor.
    unfoldable pub follow_pages : ℕ → Bytes → Session Database (List ChatMessage × Bool)
    follow_pages zero text = pure ([], false)
    follow_pages (suc fuel) text =
        request text >>= λ page. further (follow_pages fuel) page page.next_cursor

    module _ (uuid : UuidText uuid_string uuid_parse) (db : Database) (test : MessageRow → Bool)
        (positioned : All Positioned db.messages)
        (answers : (text : Bytes) (cursor : Option Cursor) (items : List ChatMessage)
          → decode_cursor uuid_parse text ≡ ok cursor
          → message_rows test (pos (suc limit)) cursor db ≡ ok items
          → request text (record { db = db; faults = [] }) ≡ (
            ok (message_page uuid_string uuid_parse (pos limit) items),
            record { db = db; faults = [] },
          )) where
      abbrev online : World Database
      online = record { db = db; faults = [] }

      later :
          (r : Result (List ChatMessage × Bool)) (page : List ChatMessage)
          → continue (r, online) (λ rest. pure (onto page rest))
            ≡ (Errors.◌>>=◌ r (λ rest. ok (onto page rest)), online)
      later (ok rest) page = refl
      later (err e) page = refl

      abbrev rows_after : Option Cursor → List MessageRow
      rows_after cursor =
          order_by message_before (filter (λ m. test m && is_after (start_of cursor) m) db.messages)

      abbrev read_after : Option Cursor → List ChatMessage
      read_after cursor = map scan_message (take (suc limit) (rows_after cursor))

      rows_read :
          (cursor : Option Cursor)
          → message_rows test (pos (suc limit)) cursor db ≡ ok (read_after cursor)
      unfolding message_rows
      rows_read cursor =
          let enough : ltb_ℤ (pos (suc limit)) (pos 0) ≡ false = ground arith in rw enough refl

      in_place : (cursor : Option Cursor) → All InPlace (read_after cursor)
      in_place cursor = scanned (suc limit) (rows_after cursor) (
          All-order_by Positioned message_before _ (All-filter Positioned _ db.messages positioned))

      abbrev Follows : ℕ → Bytes → Option Cursor → Type 0
      Follows fuel text cursor =
          follow_pages fuel text online ≡ (pages test limit db fuel cursor, online)

      paged :
          (fuel : ℕ) (p : List ChatMessage × Option Cursor)
          → ((c : Cursor) → InRange c → Follows fuel (encode_cursor uuid_string c) (some c))
          → ((c : Cursor) → p.1 ≡ some c → InRange c)
          → let page = encoded (encode_cursor uuid_string) p in
            further (follow_pages fuel) page page.next_cursor online
            ≡ (joined test limit db (pages test limit db fuel) p, online)
      paged fuel (page, none) go h = refl
      paged fuel (page, some c) go h =
          rw (go c (h c refl)) (later (pages test limit db fuel (some c)) page)

      follow-pages :
          (fuel : ℕ) (text : Bytes) (cursor : Option Cursor)
          → decode_cursor uuid_parse text ≡ ok cursor
          → Follows fuel text cursor
      unfolding follow_pages pages message_page
      follow-pages zero text cursor e = refl
      follow-pages (suc fuel) text cursor e =
          rw (answers text cursor (read_after cursor) e (rows_read cursor)) (
            rw (rows_read cursor) (
              paged fuel (page_of limit (read_after cursor))
                (λ c h.
                  follow-pages fuel (encode_cursor uuid_string c) (some c)
                    (decode_cursor-encode_cursor uuid_string uuid_parse uuid c h))
                (λ c. page_of-InRange limit (read_after cursor) c (in_place cursor))))

      -- The walk from the first page on, with one request more than there are messages.
      pub follow_complete :
          (fuel : ℕ)
          → 1 ≤ limit
          → Distinct same_message db.messages
          → All
              (λ m. is_after (start_of none) m ≡ true)
              (order_by message_before (filter test db.messages))
          → length (order_by message_before (filter test db.messages)) ≤ fuel
          → follow_pages (suc fuel) [] online ≡ (
            ok (map scan_message (order_by message_before (filter test db.messages)), true),
            online,
          )
      unfolding decode_cursor
      follow_complete fuel room keys start enough =
          follow-pages (suc fuel) [] none refl
          ∙ ap (λ r. (r, online)) (pages_complete test limit fuel db keys start room enough)
