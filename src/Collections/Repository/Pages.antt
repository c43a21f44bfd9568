-- ===== src/Collections/Repository/Pages.antt =====
-- A client that follows the cursors of `ListMessages` or `SearchMessages`, page after page.
use stream_analysis_tools.Base.{
  ℕ, zero, suc, ◌≤◌, ◌<◌, pos, ltb_ℤ, ◌≡◌, refl, sym, ap, subst, ◌∙◌, inl, inr, Bool, true, false,
  List, [], ◌∷◌, ◌++◌, map, take, drop, length, Option, none, some, All, arith, ltb, Bool-cases,
  take-append-drop,
}
use stream_analysis_tools.Collections.Model.{ChatMessage, Cursor}
use stream_analysis_tools.Collections.Repository.Messages.{
  scan_message, position_of, is_after, message_before, start_of, message_rows,
}
use stream_analysis_tools.Collections.Service.{last_position, page_of}
use stream_analysis_tools.Collections.Repository.Timeline.{
  before-asym, before-chain, is_after-before, same_message, Distinct-Apart, filter_all, page_rest,
}
use stream_analysis_tools.Errors.{Result, ok, ◌>>=◌}
use stream_analysis_tools.Sql.Rows.{MessageRow, Database}
use stream_analysis_tools.Sql.Table.{filter, order_by}
use stream_analysis_tools.Sql.Table.Distinct.{Distinct}
use stream_analysis_tools.Sql.Table.Order.{
  Strict, Apart, filter-Apart, order_by-Strict, filter-order_by, filter-both, filter-narrow,
  All-tested,
}

take_page :
    (n : ℕ) (ms : List MessageRow)
    → take n (map scan_message (take (suc n) ms)) ≡ map scan_message (take n ms)
take_page zero ms = refl
take_page (suc n) [] = refl
take_page (suc n) (m ∷ ms) = ap (◌∷◌ (scan_message m)) (take_page n ms)

full_page :
    (n : ℕ) (ms : List MessageRow) → n < length ms → n < length (map scan_message (take (suc n) ms))
full_page n [] h = absurd (omega (arith, h))
full_page zero (m ∷ ms) h = omega arith
full_page (suc n) (m ∷ ms) h = omega (arith, full_page n ms (omega (arith, h)))

short_page :
    (n : ℕ) (ms : List MessageRow)
    → length ms ≤ n
    → (map scan_message (take (suc n) ms) ≡ map scan_message ms)
      × (length (map scan_message ms) ≤ n)
short_page n [] h = (refl, omega arith)
short_page zero (m ∷ ms) h = absurd (omega (arith, h))
short_page (suc n) (m ∷ ms) h =
    let (same, le) = short_page n ms (omega (arith, h)) in
    (ap (◌∷◌ (scan_message m)) same, omega (arith, le))

page-short :
    (n : ℕ) (ms : List MessageRow)
    → length ms ≤ n
    → page_of n (map scan_message (take (suc n) ms)) ≡ (map scan_message ms, none)
unfolding page_of
page-short n ms h =
    let (same, le) = short_page n ms h in
    let stays : ltb n (length (map scan_message ms)) ≡ false = ground (arith, le) in
    rw same (rw stays refl)

page-full :
    (n : ℕ) (ms : List MessageRow)
    → n < length ms
    → page_of n (map scan_message (take (suc n) ms))
      ≡ (map scan_message (take n ms), last_position (map scan_message (take n ms)))
unfolding page_of
page-full n ms h =
    let more : ltb n (length (map scan_message (take (suc n) ms))) ≡ true =
      ground (arith, full_page n ms h) in
    rw more (rw (take_page n ms) refl)

scan-append :
    (xs ys : List MessageRow)
    → map scan_message xs ++ map scan_message ys ≡ map scan_message (xs ++ ys)
scan-append [] ys = refl
scan-append (x ∷ xs) ys = ap (◌∷◌ (scan_message x)) (scan-append xs ys)

length-drop-le : (n : ℕ) (ms : List MessageRow) → length (drop n ms) ≤ length ms
length-drop-le zero ms = omega arith
length-drop-le (suc n) [] = omega arith
length-drop-le (suc n) (m ∷ ms) = omega (arith, length-drop-le n ms)

-- A page before what the later requests bring.
abbrev pub onto : List ChatMessage → List ChatMessage × Bool → List ChatMessage × Bool
onto page rest = (page ++ rest.0, rest.1)

module _ (test : MessageRow → Bool) (limit : ℕ) (db : Database) where
  -- All pages from a cursor on, one request after the other, of which `fuel` bounds the number, and
  -- whether the last of them was a page without a next cursor. As the service does, a request reads
  -- one row more than its page has.
  abbrev pub joined :
      (Option Cursor → Result (List ChatMessage × Bool))
      → List ChatMessage × Option Cursor
      → Result (List ChatMessage × Bool)
  joined others (page, none) = ok (page, true)
  joined others (page, some cursor) = others (some cursor) >>= λ rest. ok (onto page rest)

  unfoldable pub pages : ℕ → Option Cursor → Result (List ChatMessage × Bool)
  pages zero cursor = ok ([], false)
  pages (suc fuel) cursor = message_rows test (pos (suc limit)) cursor db >>= λ items.
      joined (pages fuel) (page_of limit items)

  abbrev rows : List MessageRow
  rows = order_by message_before (filter test db.messages)

  -- The messages that a cursor leaves.
  abbrev left : Option Cursor → List MessageRow
  left cursor = filter (is_after (start_of cursor)) rows

  module _ (apart : Apart message_before db.messages) where
    allowed : ltb_ℤ (pos (suc limit)) (pos 0) ≡ false
    allowed = ground arith

    read_rows :
        (cursor : Option Cursor)
        → message_rows test (pos (suc limit)) cursor db
          ≡ ok (map scan_message (take (suc limit) (left cursor)))
    unfolding message_rows
    read_rows cursor = rw allowed (
        ap (λ ms. ok (map scan_message (take (suc limit) ms)))
          (ap (order_by message_before) (filter-both test (is_after (start_of cursor)) db.messages)
            ∙ sym (
                filter-order_by message_before before-asym before-chain (is_after (start_of cursor))
                  (filter test db.messages) (filter-Apart message_before test db.messages apart))))

    left-Strict : (cursor : Option Cursor) → Strict message_before (left cursor)
    left-Strict cursor =
        subst (Strict message_before)
          (sym (
            filter-order_by message_before before-asym before-chain (is_after (start_of cursor))
              (filter test db.messages) (filter-Apart message_before test db.messages apart)))
          (order_by-Strict message_before before-asym before-chain _
            (filter-Apart message_before _ _ (filter-Apart message_before test db.messages apart)))

    after_row :
        (cursor : Option Cursor) (l m : MessageRow)
        → is_after (start_of cursor) l ≡ true
        → is_after (position_of l) m ≡ true
        → is_after (start_of cursor) m ≡ true
    after_row cursor l m h k = is_after-before (start_of cursor) l m h (unfold message_before in k)

    module _ (room : 1 ≤ limit) where
      next_left :
          (cursor : Option Cursor)
          → limit < length (left cursor)
          → (l : MessageRow) × (last_position (map scan_message (take limit (left cursor)))
              ≡ some (position_of l))
            × (left (some (position_of l)) ≡ drop limit (left cursor))
      unfolding start_of
      next_left cursor more = by_limit limit room more
        where
          by_limit :
              (n : ℕ)
              → 1 ≤ n
              → n < length (left cursor)
              → (l : MessageRow) × (last_position (map scan_message (take n (left cursor)))
                  ≡ some (position_of l))
                × (left (some (position_of l)) ≡ drop n (left cursor))
          by_limit zero room more = absurd (omega (arith, room))
          by_limit (suc n) room more =
              let (l, last, later, behind) =
                page_rest n (left cursor) (λ m. is_after (start_of cursor) m ≡ true) more
                  (left-Strict cursor) (All-tested (is_after (start_of cursor)) rows) in
              (
                l,
                last,
                sym (
                      filter-narrow (is_after (start_of cursor)) (is_after (position_of l)) rows
                        (λ m h. after_row cursor l m later h))
                    ∙ behind,
              )

      follow :
          (fuel : ℕ) (cursor : Option Cursor)
          → length (left cursor) ≤ fuel
          → pages (suc fuel) cursor ≡ ok (map scan_message (left cursor), true)
      unfolding pages
      follow zero cursor enough =
          rw (read_rows cursor) (rw (page-short limit (left cursor) (omega (arith, enough))) refl)
      follow (suc fuel) cursor enough =
          rw (read_rows cursor) (elim (Bool-cases (ltb limit (length (left cursor)))) [
            | inr short ↦ rw (page-short limit (left cursor) (ground (arith, short))) refl
            | inl long ↦
                let more : limit < length (left cursor) = ground (arith, long) in
                let (l, last, behind) = next_left cursor more in
                rw (page-full limit (left cursor) more) (
                  rw last (
                    rw
                      (follow fuel (some (position_of l)) (
                        subst (λ ms. length ms ≤ fuel) (sym behind)
                          (dropped limit room (left cursor) enough)))
                      (ap (λ ms. ok (ms, true))
                        (scan-append (take limit (left cursor)) (left (some (position_of l)))
                          ∙ ap (map scan_message) (
                              ap (λ ms. take limit (left cursor) ++ ms) behind
                              ∙ take-append-drop limit (left cursor))))))
          ])
        where
          dropped :
              (n : ℕ)
              → 1 ≤ n
              → (ms : List MessageRow) → length ms ≤ suc fuel
              → length (drop n ms) ≤ fuel
          dropped zero r ms h = absurd (omega (arith, r))
          dropped (suc n) r [] h = omega arith
          dropped (suc n) r (m ∷ ms) h = omega (arith, h, length-drop-le n ms)

-- The pages of a stream's messages, followed from the first on, are all its messages: each of those
-- that the condition holds of once, in the order of offset and identifier, whatever the size of the
-- pages, and the last of them has no next cursor. It wants messages of different identifiers that stand after the start (offset -2^63,
-- identifier 0), a page of at least one message, and as many requests as messages and one more.
pub pages_complete :
    (test : MessageRow → Bool) (limit fuel : ℕ) (db : Database)
    → Distinct same_message db.messages
    → All
        (λ m. is_after (start_of none) m ≡ true)
        (order_by message_before (filter test db.messages))
    → 1 ≤ limit
    → length (order_by message_before (filter test db.messages)) ≤ fuel
    → pages test limit db (suc fuel) none
      ≡ ok (map scan_message (order_by message_before (filter test db.messages)), true)
pages_complete test limit fuel db keys start room enough =
    let whole =
      filter_all (is_after (start_of none)) (order_by message_before (filter test db.messages))
        start in
    follow test limit db (Distinct-Apart db.messages keys) room fuel none
      (subst (λ ms. length ms ≤ fuel) (sym whole) enough)
    ∙ ap (λ ms. ok (map scan_message ms, true)) whole
