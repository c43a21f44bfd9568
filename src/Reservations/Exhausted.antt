-- ===== src/Reservations/Exhausted.antt =====
-- A reservation whose checks keep failing: `RunOnce` of apps/api/internal/reservations/monitor.go, run
-- after run, on a table with this reservation alone.
use stream_analysis_tools.Base.{
  ℕ, zero, suc, ◌+◌, ◌≤◌, ◌<◌, ◌*◌, ◌-◌, pos, ◌≡◌, refl, ap, ◌∙◌, true, false, [], ◌∷◌, some, arith,
  Time, leb, ◌==◌, Bool-cases, ltb_ℤ, inl, inr, minute, String,
}
use stream_analysis_tools.Errors.{Result, ok, err, metadata_provider_unavailable}
use stream_analysis_tools.Reservations.Model.{ClaimedReservation, state_eq, collecting, failed}
use stream_analysis_tools.Reservations.Monitor.{
  run_once, after_claim, check_claimed, look_up, fetched, recorded,
}
use stream_analysis_tools.Reservations.Repository.Guarded.{Supply, logged}
use stream_analysis_tools.Reservations.Repository.Leases.{claim_due, is_due, claimed_row, owns}
use stream_analysis_tools.Reservations.Repository.Outcomes.{
  record_failure, failed_row, failure_of, gives_up,
}
use stream_analysis_tools.Reservations.Repository.Rows.{
  scan_claimed_reservation, update_reservations, insert_transition,
}
use stream_analysis_tools.Reservations.Schedule.{bounded_backoff}
use stream_analysis_tools.Reservations.Schedule.Backoff.{bounded_backoff_bounds}
use stream_analysis_tools.Sql.Rows.{ReservationRow, Database}
use stream_analysis_tools.Sql.Session.{World, statement, execute, checked, call, transact}
use stream_analysis_tools.Sql.Table.{first_by, earlier, count, update, is_distinct, find}

-- The one reservation has failed.
abbrev pub Failed : Database → Type 0
Failed db = (r : ReservationRow) × (db.reservations ≡ r ∷ []) × (r.state ≡ failed)

module _ (supply : Supply) (lease : ℕ) where
  abbrev code : String
  code = "YOUTUBE_TEMPORARILY_UNAVAILABLE"

  abbrev message : String
  message = "YouTube metadata is temporarily unavailable."

  -- A run of a worker while YouTube does not answer and the database does.
  abbrev pub failing_run : Time → Database → Database
  failing_run t db =
      (run_once (some (λ id. err metadata_provider_unavailable)) supply "monitor" t
        (pos (suc lease)) (record { db = db; faults = [] })).1.db

  -- What such a run makes of the reservation.
  abbrev after_failure : Time → ReservationRow → ReservationRow
  after_failure t r =
      failed_row (failure_of r.state (r.monitor_attempt + 1) t true) t code message
        (claimed_row "monitor" t (t + suc lease) r)

  claims_it :
      (t : Time) (r : ReservationRow) (db : Database)
      → db.reservations ≡ r ∷ []
      → is_due t r ≡ true
      → claim_due "monitor" t (pos (suc lease)) (record { db = db; faults = [] }) ≡ (
        ok (some (scan_claimed_reservation (claimed_row "monitor" t (t + suc lease) r))),
        record {
          db = record db { reservations = claimed_row "monitor" t (t + suc lease) r ∷ [] };
          faults = [];
        },
      )
  unfolding claim_due statement first_by update earlier
  claims_it t r db e d =
      let key : (r.id == r.id) ≡ true = ground arith in
      let room : ltb_ℤ (pos 0) (pos (suc lease)) ≡ true = ground arith in
      rw room (rw e (rw d (rw key refl)))

  owned_it :
      (t : Time) (r : ReservationRow)
      → owns
          (scan_claimed_reservation (claimed_row "monitor" t (t + suc lease) r))
          t
          (claimed_row "monitor" t (t + suc lease) r)
        ≡ true
  unfolding owns scan_claimed_reservation claimed_row
  owned_it t r = ground arith

  records_it :
      (t : Time) (c : ClaimedReservation) (r : ReservationRow) (db : Database)
      → db.reservations ≡ r ∷ []
      → owns c t r ≡ true
      → (record_failure c t code message true (record { db = db; faults = [] })).1.db.reservations
        ≡ failed_row (failure_of c.state (c.monitor_attempt + 1) t true) t code message r ∷ []
  unfolding record_failure transact call statement execute checked is_distinct find
      update_reservations logged insert_transition count update
  records_it t c r db e o = rw e (
      rw o
        (elim (Bool-cases
          (state_eq (failure_of c.state (c.monitor_attempt + 1) t true).target failed)) [
            | inl y ↦ rw y refl
            | inr n ↦ rw n refl
          ]))

  recorded_db :
      (c : ClaimedReservation) (reported : String) (answer : Result (Unit {0}) × World Database)
      → (recorded c reported answer).1 ≡ answer.1
  unfolding recorded
  recorded_db c reported (ok _, w) = refl
  recorded_db c reported (err e, w) = refl

  checks_it :
      (t : Time) (c : ClaimedReservation) (w : World Database)
      → state_eq c.state collecting ≡ false
      → (check_claimed (some (λ id. err metadata_provider_unavailable)) supply c t w).1
        ≡ (record_failure c t code message true w).1
  unfolding check_claimed look_up fetched
  checks_it t c w s = rw s (recorded_db c code (record_failure c t code message true w))

  fails_it :
      (t : Time) (r : ReservationRow) (db : Database)
      → db.reservations ≡ r ∷ []
      → is_due t r ≡ true
      → state_eq r.state collecting ≡ false
      → (failing_run t db).reservations ≡ after_failure t r ∷ []
  unfolding run_once after_claim scan_claimed_reservation claimed_row
  fails_it t r db e d s =
      let mine : ReservationRow = claimed_row "monitor" t (t + suc lease) r in
      let next : Database = record db { reservations = mine ∷ [] } in
      ap
        (λ x.
          (after_claim (some (λ id. err metadata_provider_unavailable)) supply t
            x).1.db.reservations)
        (claims_it t r db e d)
      ∙ ap (λ x. x.db.reservations)
          (checks_it t (scan_claimed_reservation mine) (record { db = next; faults = [] }) s)
      ∙ records_it t (scan_claimed_reservation mine) mine next refl (owned_it t r)

  -- As many runs of the worker, 30 minutes apart.
  unfoldable pub failing_runs : ℕ → Time → Database → Database
  failing_runs zero t db = db
  failing_runs (suc n) t db = failing_runs n (t + 30 * minute) (failing_run t db)

  gives_up_at :
      (t : Time) (r : ReservationRow) → 4 ≤ r.monitor_attempt → (after_failure t r).state ≡ failed
  unfolding failure_of gives_up failed_row
  gives_up_at t r h = let late : leb 5 (r.monitor_attempt + 1) ≡ true = ground arith in rw late refl

  goes_on :
      (t : Time) (r : ReservationRow)
      → r.monitor_attempt < 4
      → is_due t r ≡ true
      → is_due (t + 30 * minute) (after_failure t r) ≡ true
        × ((after_failure t r).state ≡ r.state)
        × ((after_failure t r).monitor_attempt ≡ suc r.monitor_attempt)
  unfolding failure_of gives_up failed_row claimed_row is_due
  goes_on t r h d =
      let early : leb 5 (r.monitor_attempt + 1) ≡ false = ground arith in
      let cap : bounded_backoff (r.monitor_attempt + 1) minute (30 * minute) ≤ 30 * minute =
        (bounded_backoff_bounds (r.monitor_attempt + 1) minute (30 * minute) (omega arith)).1 in
      rw early (ground (arith, cap, d), refl, omega arith)

  fails_within :
      (n : ℕ) (t : Time) (r : ReservationRow) (db : Database)
      → 4 - r.monitor_attempt ≡ n
      → db.reservations ≡ r ∷ []
      → is_due t r ≡ true
      → state_eq r.state collecting ≡ false
      → Failed (failing_runs (suc n) t db)
  unfolding failing_runs
  fails_within zero t r db k e d s =
      (after_failure t r, fails_it t r db e d s, gives_up_at t r (omega (arith, k)))
  fails_within (suc n) t r db k e d s =
      let next = goes_on t r (omega (arith, k)) d in
      fails_within n (t + 30 * minute) (after_failure t r) (failing_run t db)
        (omega (arith, k, next.2)) (fails_it t r db e d s) next.0 (rw next.1 s)

-- A reservation that is due, is not collecting and is alone in its table, a supply of keys and a
-- lease of at least a nanosecond: runs of the monitor, 30 minutes apart, in which YouTube does not
-- answer and the database does, end in the state failed, the first of them if the reservation has
-- been checked four times or more, and otherwise the one that makes the fifth check.
pub failing_runs-Failed :
    (supply : Supply) (lease : ℕ) (t : Time) (r : ReservationRow) (db : Database)
    → db.reservations ≡ r ∷ []
    → is_due t r ≡ true
    → state_eq r.state collecting ≡ false
    → Failed (failing_runs supply lease (suc (4 - r.monitor_attempt)) t db)
failing_runs-Failed supply lease t r db = fails_within supply lease _ t r db refl
