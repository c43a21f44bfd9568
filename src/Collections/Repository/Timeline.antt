-- ===== src/Collections/Repository/Timeline.antt =====
-- The pages of a stream's messages, put together, as a client does that follows the cursors.
use stream_analysis_tools.Base.{
  ℕ, zero, suc, ◌<◌, ◌≡◌, refl, ap, ◌⊎◌, inl, inr, Bool, true, false, List, [], ◌∷◌, map, take,
  drop, length, some, All, arith, ◌==◌, Bool-cases,
}
use stream_analysis_tools.Collections.Model.{Cursor}
use stream_analysis_tools.Collections.Repository.Messages.{
  scan_message, position_of, is_after, message_before,
}
use stream_analysis_tools.Collections.Service.{last_position}
use stream_analysis_tools.Sql.Rows.{MessageRow}
use stream_analysis_tools.Sql.Table.{filter}
use stream_analysis_tools.Sql.Table.Distinct.{Distinct}
use stream_analysis_tools.Sql.Table.Order.{Strict, Apart}

pub before-asym : (a b : MessageRow) → message_before a b ≡ true → message_before b a ≡ false
unfolding message_before is_after
before-asym a b h = ground arith

pub is_after-before :
    (c : Cursor) (a b : MessageRow)
    → is_after c a ≡ true
    → message_before a b ≡ true
    → is_after c b ≡ true
unfolding message_before is_after
is_after-before c a b h k = ground arith

pub before-chain :
    (a b c : MessageRow)
    → message_before a b ≡ true
    → message_before b c ≡ true
    → message_before a c ≡ true
unfolding message_before
before-chain a b c h k = is_after-before (position_of a) b c h k

-- Two messages of one key.
abbrev pub same_message : MessageRow → MessageRow → Bool
same_message a b = a.id == b.id

keyed_apart :
    (a b : MessageRow)
    → same_message a b ≡ false
    → (message_before a b ≡ true) ⊎ (message_before b a ≡ true)
unfolding message_before is_after
keyed_apart a b h = ground arith

pub Distinct-Apart : (ms : List MessageRow) → Distinct same_message ms → Apart message_before ms
Distinct-Apart [] h = tt
Distinct-Apart (m ∷ ms) h = (each ms h.0, Distinct-Apart ms h.1)
  where
    each :
        (ns : List MessageRow)
        → All (λ n. same_message m n ≡ false) ns
        → All (λ n. (message_before m n ≡ true) ⊎ (message_before n m ≡ true)) ns
    each [] h = tt
    each (n ∷ ns) h = (keyed_apart m n h.0, each ns h.1)

pub filter_all :
    (test : MessageRow → Bool) (ms : List MessageRow)
    → All (λ m. test m ≡ true) ms
    → filter test ms ≡ ms
unfolding filter
filter_all test [] h = refl
filter_all test (m ∷ ms) h = rw h.0 (ap (◌∷◌ m) (filter_all test ms h.1))

-- What lies behind the last row of a full page is what the page has left.
abbrev pub Rest : ℕ → List MessageRow → (MessageRow → Type 0) → Type 0
Rest n ms P =
    (l : MessageRow) × (last_position (map scan_message (take n ms)) ≡ some (position_of l))
    × P l
    × (filter (is_after (position_of l)) ms ≡ drop n ms)

pub page_rest :
    (n : ℕ) (ms : List MessageRow) (P : MessageRow → Type 0)
    → suc n < length ms
    → Strict message_before ms
    → All P ms
    → Rest (suc n) ms P
unfolding filter scan_message message_before
page_rest n [] P e s p = absurd (omega (arith, e))
page_rest zero (m ∷ ms) P e s p =
    (m, refl, p.0, rw (self m) (filter_all (is_after (position_of m)) ms s.0))
  where
    self : (m : MessageRow) → is_after (position_of m) m ≡ false
    self m = elim (Bool-cases (message_before m m)) [ inl h ↦ before-asym m m h | inr h ↦ h ]
page_rest (suc n) (m ∷ []) P e s p = absurd (omega (arith, e))
page_rest (suc n) (m ∷ k ∷ ms) P e s p =
    let (l, last, (pl, ml), behind) =
      page_rest n (k ∷ ms) (λ x. P x × (message_before m x ≡ true)) (omega (arith, e)) s.1
        (both (k ∷ ms) p.1 s.0) in
    (l, last, pl, rw (before-asym m l ml) behind)
  where
    both :
        (xs : List MessageRow)
        → All P xs
        → All (λ x. message_before m x ≡ true) xs
        → All (λ x. P x × (message_before m x ≡ true)) xs
    both [] h k = tt
    both (x ∷ xs) h k = ((h.0, k.0), both xs h.1 k.1)
