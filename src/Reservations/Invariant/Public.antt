-- ===== src/Reservations/Invariant/Public.antt =====
-- `Create`, `Cancel`, `Get` and `List` keep the invariant.
use stream_analysis_tools.Base.{
  ℕ, ◌≡◌, refl, subst, ==_iff, Option, Bool, true, false, List, [], ◌∷◌, none, some, All, arith,
  Time,
}
use stream_analysis_tools.Errors.{ok}
use stream_analysis_tools.Reservations.Invariant.Checks.{identity_fields, canceled_row-RowChecks}
use stream_analysis_tools.Reservations.Invariant.Defs.{
  same_key, same_key_sym, LoggedFrom, Inv, Settles,
}
use stream_analysis_tools.Reservations.Invariant.Writes.{
  update_reservations-Inv, insert_transition-Inv, insert_reservation-Inv, get-Inv,
}
use stream_analysis_tools.Reservations.Machine.{can_cancel-transition}
use stream_analysis_tools.Reservations.Model.{
  State, Event, Reservation, ClaimedReservation, can_cancel, scheduled, canceled,
}
use stream_analysis_tools.Reservations.Repository.Public.{
  is_active, canceled_row, cancel_if, state_of, cancel_transaction, cancel, create_transaction,
  create,
}
use stream_analysis_tools.Reservations.Repository.Rows.{has_id}
use stream_analysis_tools.Sql.Rows.{ReservationRow, Database}
use stream_analysis_tools.Sql.Session.Ensures.{
  Ensures, Ensures-pure, Ensures-raise, Ensures-select, Ensures-map_err, Ensures-transact,
  Ensures-bind,
}
use stream_analysis_tools.Sql.Table.{find}
use stream_analysis_tools.Sql.Table.Laws.{All-find}
use stream_analysis_tools.Sql.Table.Distinct.{Only, find-Only}

canceled_row-Settles :
    (id : ℕ) (state : State) (at : Time)
    → can_cancel state ≡ true
    → Settles (λ r. has_id id r ≡ true → r.state ≡ state) (has_id id) (canceled_row at)
unfolding canceled_row is_active
canceled_row-Settles id state at h = record {
  advances = record { key = λ r. refl; revision = λ r. refl };
  video = λ r. refl;
  checks = λ r t p c. canceled_row-RowChecks at r (rw (p t) h) c;
  asleep = λ r t p c a. cc;
}

canceled_LoggedFrom : (s : State) → can_cancel s ≡ true → LoggedFrom (some s) canceled
unfolding can_cancel
canceled_LoggedFrom s h = (ground arith, (Event.cancel, (can_cancel-transition s).0 h))

-- The row that is read by its key is the only one with that key.
Only-state :
    (id : ℕ) (r : ReservationRow) (rows : List ReservationRow)
    → r.id ≡ id
    → Only same_key r rows
    → All (λ q. has_id id q ≡ true → q.state ≡ r.state) rows
Only-state id r [] e h = tt
Only-state id r (q ∷ qs) e h = ((λ t. ground (arith, h.0)), Only-state id r qs e h.1)

read_state :
    (claims : List ClaimedReservation) (id : ℕ) (db : Database)
    → Inv claims db
    → (o : Option ReservationRow) (s : State) → find (has_id id) db.reservations ≡ o
    → state_of o ≡ ok s
    → Inv claims db × All (λ r. has_id id r ≡ true → r.state ≡ s) db.reservations
read_state claims id db i none s e h = cc
read_state claims id db i (some r) s e h = (
  i,
  subst (λ t. All (λ q. has_id id q ≡ true → q.state ≡ t) db.reservations) (ground arith)
      (Only-state id r db.reservations
        ((==_iff r.id id).0
          (All-find (λ _. Unit {0}) (has_id id) db.reservations e (trivial db.reservations)).1)
        (find-Only same_key same_key_sym (has_id id) db.reservations r e i.valid.keys)),
)
  where
    trivial : (rows : List ReservationRow) → All (λ _. Unit {0}) rows
    trivial [] = tt
    trivial (q ∷ qs) = (tt, trivial qs)

module _ (claims : List ClaimedReservation) where
  cancel_if-Inv :
      (b : Bool) (id : ℕ) (state : State) (at : Time)
      → can_cancel state ≡ b
      → Ensures
          (λ db. Inv claims db × All (λ r. has_id id r ≡ true → r.state ≡ state) db.reservations)
          (cancel_if b id state at)
          (λ _ db. Inv claims db)
          (Inv claims)
  unfolding cancel_if
  cancel_if-Inv false id state at h = Ensures-raise _ (λ db i. i.0)
  cancel_if-Inv true id state at h =
      Ensures-bind _ _ (update_reservations-Inv claims (canceled_row-Settles id state at h)) (λ _.
        insert_transition-Inv claims id (some state) canceled _ at (canceled_LoggedFrom state h))

  cancel_transaction-Inv :
      (id : ℕ) (at : Time)
      → Ensures (Inv claims) (cancel_transaction id at) (λ _ db. Inv claims db) (Inv claims)
  unfolding cancel_transaction
  cancel_transaction-Inv id at =
      Ensures-transact _ (λ db i. i)
        (Ensures-bind
          {R = λ s db. Inv claims db × All (λ r. has_id id r ≡ true → r.state ≡ s) db.reservations}
          _ _
          (Ensures-map_err _ _ (
            Ensures-select _
              (λ db i s. read_state claims id db i (find (has_id id) db.reservations) s refl)
              (λ db i. i)))
          (λ s. cancel_if-Inv (can_cancel s) id s at refl))

  pub cancel-Inv :
      (id : ℕ) (at : Time)
      → Ensures (Inv claims) (cancel id at) (λ _ db. Inv claims db) (Inv claims)
  unfolding cancel
  cancel-Inv id at = Ensures-bind _ _ (cancel_transaction-Inv id at) (λ _. get-Inv claims id)

  pub create-Inv :
      (fresh : ℕ) (r : Reservation)
      → r.state ≡ scheduled
      → identity_fields r.youtube_video_id r.source_url ≡ true
      → Ensures (Inv claims) (create fresh r) (λ _ db. Inv claims db) (Inv claims)
  unfolding create create_transaction
  create-Inv fresh r h f =
      Ensures-bind _ _
        (Ensures-transact _ (λ db i. i)
          (Ensures-bind _ _ (Ensures-map_err _ _ (insert_reservation-Inv claims fresh r h f)) (λ id.
            Ensures-bind _ _ (insert_transition-Inv claims id none r.state _ r.next_check_at h)
              (λ _. Ensures-pure id (λ db i. i)))))
        (λ id. get-Inv claims id)
