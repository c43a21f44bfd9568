-- ===== src/Reservations/Invariant/Writes.antt =====
-- The statements of apps/api/internal/reservations/repository.go that write, and the invariant.
use stream_analysis_tools.Base.{
  ℕ, ◌≡◌, ◌≢◌, Bool, true, false, List, [], ◌∷◌, Option, none, All, arith, is_some, subst, String,
  Time,
}
use stream_analysis_tools.Errors.{ok, unique_violation}
use stream_analysis_tools.Reservations.Invariant.Checks.{identity_fields, new_row-RowChecks}
use stream_analysis_tools.Reservations.Invariant.Defs.{
  same_key, Since, Genuine, LoggedFrom, Valid, Inv, Settles, Inv-update,
}
use stream_analysis_tools.Reservations.Model.{State, Reservation, ClaimedReservation, scheduled}
use stream_analysis_tools.Reservations.Repository.Public.{
  new_row, conflicts, insertion, insert_reservation, get,
}
use stream_analysis_tools.Reservations.Repository.Rows.{
  has_id, same_job, update_reservations, insert_transition,
}
use stream_analysis_tools.Sql.Rows.{ReservationRow, TransitionRow, Database}
use stream_analysis_tools.Sql.Session.Ensures.{
  Ensures, Ensures-statement, Ensures-execute, Ensures-checked, Ensures-select, Ensures-map_err,
}
use stream_analysis_tools.Sql.Table.{find, count, update, is_distinct}
use stream_analysis_tools.Sql.Table.Distinct.{find-none}

-- The UPDATE, which the unique index may refuse.
pub Ensures-update_reservations :
    {P E : Database → Type 0} {Q : ℕ → Database → Type 0} (test : ReservationRow → Bool)
    (set : ReservationRow → ReservationRow)
    → ((db : Database)
        → P db
        → Q
            (count test db.reservations)
            (record db { reservations = update test set db.reservations }))
    → ((db : Database) → P db → E db)
    → Ensures P (update_reservations test set) Q E
unfolding update_reservations
Ensures-update_reservations test set good bad =
    Ensures-checked (λ db. is_distinct same_job db.reservations)
      (unique_violation "reservations_collection_job_uidx")
      (λ db.
        (count test db.reservations, record db { reservations = update test set db.reservations }))
      good bad

module _ (claims : List ClaimedReservation) where
  -- The UPDATE, from a state in which all rows satisfy `P`.
  pub update_reservations-Inv :
      {P : ReservationRow → Type 0} {test : ReservationRow → Bool}
      {f : ReservationRow → ReservationRow}
      → Settles P test f
      → Ensures
          (λ db. Inv claims db × All P db.reservations)
          (update_reservations test f)
          (λ _ db. Inv claims db)
          (Inv claims)
  update_reservations-Inv s =
      Ensures-update_reservations _ _ (λ db h. Inv-update s claims db h.1 h.0) (λ db h. h.0)

  -- The log keeps to the transition table.
  pub insert_transition-Inv :
      (id : ℕ) (from : Option State) (to : State) (reason : String) (at : Time)
      → LoggedFrom from to
      → Ensures
          (Inv claims)
          (insert_transition id from to reason at)
          (λ _ db. Inv claims db)
          (Inv claims)
  unfolding insert_transition
  insert_transition-Inv id from to reason at l =
      Ensures-execute _
        (λ db i. record {
          valid = record {
            rows = i.valid.rows;
            keys = i.valid.keys;
            videos = i.valid.videos;
            log = (l, i.valid.log);
          };
          genuine = logged_genuine claims db _ i.genuine;
        })
        (λ db i. i)
    where
      logged_genuine :
          (cs : List ClaimedReservation) (db : Database) (ts : List TransitionRow)
          → All (Genuine db) cs
          → All (Genuine (record db { transitions = ts })) cs
      logged_genuine [] db ts h = tt
      logged_genuine (c ∷ cs) db ts h = (
        record { since = h.0.since; present = h.0.present; unfinished = h.0.unfinished },
        logged_genuine cs db ts h.1,
      )

  pub get-Inv : (id : ℕ) → Ensures (Inv claims) (get id) (λ _ db. Inv claims db) (Inv claims)
  unfolding get
  get-Inv id = Ensures-map_err _ _ (Ensures-select _ (λ db i a e. i) (λ db i. i))

-- A row that is added under a new key disturbs no claim.
Since-new : (c : ClaimedReservation) (r : ReservationRow) → r.id ≢ c.id → Since c r
Since-new c r h = record {
  behind = λ e. absurd (h e);
  state_kept = λ e. absurd (h e);
  job_kept = λ e. absurd (h e);
  attempt_kept = λ e. absurd (h e);
}

find-ne :
    (a b : ℕ) (rows : List ReservationRow)
    → find (has_id a) rows ≡ none
    → is_some (find (has_id b) rows) ≡ true
    → a ≢ b
find-ne a b rows h k e = ground (arith, h, k, e)

Genuine-new :
    (claims : List ClaimedReservation) (r : ReservationRow) (db : Database)
    → find (has_id r.id) db.reservations ≡ none
    → All (Genuine db) claims
    → All (Genuine (record db { reservations = r ∷ db.reservations })) claims
unfolding find
Genuine-new [] r db fresh h = tt
Genuine-new (c ∷ cs) r db fresh h = (
  record {
    since = (Since-new c r (find-ne r.id c.id db.reservations fresh h.0.present), h.0.since);
    present = ground (arith, h.0.present);
    unfinished = h.0.unfinished;
  },
  Genuine-new cs r db fresh h.1,
)

keys-new :
    (r : ReservationRow) (rows : List ReservationRow)
    → All (λ q. has_id r.id q ≡ false) rows
    → All (λ q. same_key r q ≡ false) rows
keys-new r [] h = tt
keys-new r (q ∷ qs) h = (ground (arith, h.0), keys-new r qs h.1)

-- What an INSERT that is not refused has found and written.
abbrev Inserted : ℕ → Reservation → Database → Database → Type 0
Inserted fresh r db db' =
    (find (has_id fresh) db.reservations ≡ none)
    × (find (conflicts (new_row fresh r)) db.reservations ≡ none)
    × (record db { reservations = new_row fresh r ∷ db.reservations } ≡ db')

new_row-Valid :
    (fresh : ℕ) (r : Reservation) (db : Database)
    → r.state ≡ scheduled
    → identity_fields r.youtube_video_id r.source_url ≡ true
    → find (has_id fresh) db.reservations ≡ none
    → find (conflicts (new_row fresh r)) db.reservations ≡ none
    → Valid db
    → Valid (record db { reservations = new_row fresh r ∷ db.reservations })
unfolding new_row
new_row-Valid fresh r db h f k c v = record {
  rows = (unfold new_row in new_row-RowChecks fresh r h f, v.rows);
  keys = (
    keys-new (new_row fresh r) db.reservations
        (find-none same_key (has_id fresh) db.reservations k),
    v.keys,
  );
  videos = (find-none conflicts (conflicts (new_row fresh r)) db.reservations c, v.videos);
  log = v.log;
}

pub insert_reservation-Inv :
    (claims : List ClaimedReservation) (fresh : ℕ) (r : Reservation)
    → r.state ≡ scheduled
    → identity_fields r.youtube_video_id r.source_url ≡ true
    → Ensures (Inv claims) (insert_reservation fresh r) (λ _ db. Inv claims db) (Inv claims)
unfolding insert_reservation
insert_reservation-Inv claims fresh r h f =
    Ensures-statement _
      (λ db i a db' e.
        let (k, c, same) = inserted db a db' e in
        subst (Inv claims) same (record {
          valid = new_row-Valid fresh r db h f k c i.valid;
          genuine = Genuine-new claims (new_row fresh r) db (unfold new_row in k) i.genuine;
        }))
      (λ db i. i)
  where
    inserted :
        (db : Database) (a : ℕ) (db' : Database)
        → insertion fresh r db ≡ ok (a, db')
        → Inserted fresh r db db'
    inserted db a db' e = ground arith
