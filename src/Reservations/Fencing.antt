-- ===== src/Reservations/Fencing.antt =====
-- The outcomes that a worker writes under a claim: `ApplyMetadata`, `SyncCollection` and
-- `RecordFailure` of apps/api/internal/reservations/repository.go.

use stream_analysis_tools.Base.{
  ℕ, ◌≤◌, ◌≡◌, refl, inl, inr, Bool, true, false, List, [], ◌∷◌, Option, none, some, All, arith,
  String, Time, Bool-cases, ◌==◌,
}
use stream_analysis_tools.Errors.{Result, ok, err, is_ok, other}
use stream_analysis_tools.Reservations.Invariant.Defs.{Frame}
use stream_analysis_tools.Reservations.Invariant.Supplied.{
  observed_stream-Frame, collection_job-Frame,
}
use stream_analysis_tools.Reservations.Model.{State, ClaimedReservation}
use stream_analysis_tools.Reservations.Repository.Guarded.{
  Supply, observed_row, logged, apply_observation, apply_metadata,
}
use stream_analysis_tools.Reservations.Repository.Leases.{owns}
use stream_analysis_tools.Reservations.Repository.Outcomes.{
  sync_target, synced_row, sync_job, sync_collection, failed_row, record_failure,
}
use stream_analysis_tools.Reservations.Invariant.Writes.{Ensures-update_reservations}
use stream_analysis_tools.Reservations.Repository.Rows.{update_reservations, insert_transition}
use stream_analysis_tools.Reservations.Schedule.Observation.{state_from_metadata-total}
use stream_analysis_tools.Sql.Rows.{ReservationRow, Database}
use stream_analysis_tools.Sql.Session.{World, Session, raise, transact, ◌>>=◌}
use stream_analysis_tools.Sql.Session.Ensures.{
  After, Ensures, Ensures-pure, Ensures-raise, Ensures-select, Ensures-execute, Ensures-transact,
  Ensures-bind, Ensures-error, transact_atomic, Ensures-given, Ensures-given₂,
}
use stream_analysis_tools.Sql.Table.{count, update}
use stream_analysis_tools.Streams.Model.{Metadata}

-- What a worker may write under a claim.
pub data Outcome : Type 0 where
  observed : Supply → Metadata → Outcome
  synced : Outcome
  gave_error : String → String → Bool → Outcome

abbrev pub write_outcome : Outcome → ClaimedReservation → Time → Session Database (Unit {0})
write_outcome (observed supply m) c at = apply_metadata supply c m at
write_outcome synced c at = sync_collection c at
write_outcome (gave_error code message retryable) c at = record_failure c at code message retryable

module _ (c : ClaimedReservation) where
  -- No row is owned under the claim at this time.
  abbrev pub Lost : Time → Database → Type 0
  Lost at db = All (λ r. owns c at r ≡ false) db.reservations

  Lost-Frame : (at : Time) → Frame (Lost at)
  Lost-Frame at = record { at_streams = λ db ss h. h; at_jobs = λ db js h. h }

  none_owned :
      (at : Time) (rows : List ReservationRow)
      → All (λ r. owns c at r ≡ false) rows
      → count (owns c at) rows ≡ 0
  unfolding count
  none_owned at [] h = refl
  none_owned at (r ∷ rs) h = rw h.0 (none_owned at rs h.1)

  -- A write that takes the worker out of the rows that it changes.
  record Releases (f : ReservationRow → ReservationRow) : Type 0 where
    worker : (r : ReservationRow) → (f r).worker_id ≡ none

  later-owned :
      (at later : Time) (r : ReservationRow)
      → at ≤ later
      → owns c at r ≡ false
      → owns c later r ≡ false
  unfolding owns
  later-owned at later r le h = ground arith

  freed : (later : Time) (x : ReservationRow) → x.worker_id ≡ none → owns c later x ≡ false
  unfolding owns
  freed later x e = ground arith

  released :
      (at later : Time) (f : ReservationRow → ReservationRow) (rows : List ReservationRow)
      → at ≤ later
      → Releases f
      → All (λ r. owns c later r ≡ false) (update (owns c at) f rows)
  unfolding update
  released at later f [] le rel = tt
  released at later f (r ∷ rs) le rel = elim (Bool-cases (owns c at r)) [
    | inl hit ↦ rw hit (freed later (f r) (rel.worker r), released at later f rs le rel)
    | inr miss ↦ rw miss (later-owned at later r le miss, released at later f rs le rel)
  ]

  module _ (later : Time) (f : ReservationRow → ReservationRow) (rel : Releases f) where
    logged-Lost :
        (n : ℕ) (changed : Bool) (to : State) (reason : String) (at : Time)
        → Ensures
            (Lost later)
            (logged n changed c to reason at)
            (λ _ db. Lost later db)
            (Lost later)
    unfolding logged insert_transition
    logged-Lost n changed to reason at = elim (Bool-cases (n == 1)) [
      | inr many ↦ rw many (Ensures-raise _ (λ db h. h))
      | inl one ↦ rw one (elim (Bool-cases changed) [
        | inl t ↦ rw t (Ensures-execute _ (λ db h. h) (λ db h. h))
        | inr t ↦ rw t (Ensures-pure tt (λ db h. h))
      ])
    ]

    -- After the write nobody owns the claim; its error is undone.
    written-Lost :
        (P : Database → Type 0) (at : Time) (changed : Bool) (to : State) (reason : String)
        → at ≤ later
        → Ensures P
            (update_reservations (owns c at) f >>= λ n. logged n changed c to reason at)
            (λ _ db. Lost later db)
            (λ _. Unit {0})
    written-Lost P at changed to reason le =
        Ensures-bind {R = λ _ db. Lost later db} _ _
          (Ensures-update_reservations _ _ (λ db p. released at later f db.reservations le rel)
            (λ db p. tt))
          (λ n. Ensures-error _ (λ db h. tt) (logged-Lost n changed to reason at))

  -- Under a lost claim the write affects no row, so that the body ends in an error.
  unwritten :
      (f : ReservationRow → ReservationRow) (at : Time) (changed : Bool) (to : State)
      (reason : String)
      → Ensures
          (Lost at)
          (update_reservations (owns c at) f >>= λ n. logged n changed c to reason at)
          (λ _ _. ⊥)
          (λ _. Unit {0})
  unfolding logged
  unwritten f at changed to reason =
      Ensures-bind {R = λ n _. n ≡ 0} _ _
        (Ensures-update_reservations _ _ (λ db h. none_owned at db.reservations h) (λ db h. tt))
        (λ n. record { at = λ w e. rw e tt })

module _ (c : ClaimedReservation) (at : Time) where
  -- An outcome that answers with an error and writes nothing.
  abbrev Refused : Session Database (Unit {0}) → World Database → Type 0
  Refused m w = (is_ok (m w).0 ≡ false) × ((m w).1.db ≡ w.db)

  refused :
      (body : Session Database (Unit {0}))
      → Ensures (Lost c at) body (λ _ _. ⊥) (λ _. Unit {0})
      → (w : World Database) → Lost c at w.db
      → Refused (transact body) w
  refused body h w p = by_result (transact body w) refl
    where
      whole : Ensures (Lost c at) (transact body) (λ _ _. ⊥) (λ _. Unit {0})
      whole = Ensures-transact body (λ db q. tt) h

      by_result :
          (r : Result (Unit {0}) × World Database) → transact body w ≡ r → Refused (transact body) w
      by_result (ok u, v) e = absurd (rw e at (whole.at w p))
      by_result (err x, v) e = (rw e refl, transact_atomic body w x (rw e refl))

  apply_observation-Refused :
      (supply : Supply) (m : Metadata) (answer : State × String) (w : World Database)
      → Lost c at w.db
      → Refused (apply_observation supply c m at answer) w
  unfolding apply_observation
  apply_observation-Refused supply m (target, reason) w h =
      refused _
        (Ensures-bind _ _
          (Ensures-error _ (λ db p. tt) (observed_stream-Frame (Lost-Frame c at) supply m))
          λ stream_id. Ensures-given _ λ a.
            Ensures-bind _ _
              (Ensures-error _ (λ db p. tt)
                (collection_job-Frame (Lost-Frame c at) supply target c.id stream_id))
              λ job_id. Ensures-given₂ _ λ b d. unwritten c _ at _ target reason)
        w h

  sync-Refused :
      (job_id : Option ℕ) (w : World Database)
      → Lost c at w.db
      → Refused
          (elim job_id as (λ _. Session Database (Unit {0})) [
            | none ↦ raise (other "collecting reservation has no collection job")
            | some id ↦ sync_job c at id
          ])
          w
  unfolding sync_job
  sync-Refused none w h = (refl, refl)
  sync-Refused (some job_id) w h =
      refused _
        (Ensures-bind {R = λ _ db. Lost c at db} _ _ (Ensures-select _ (λ db p a e. p) (λ db p. tt))
          λ job. unwritten c _ at _ (sync_target job.status) _)
        w h

  -- Under a claim that owns no row at the time of the write, no outcome can be written: each of
  -- the three operations returns an error and leaves the database as it was, whatever calls fail.
  pub outcome-Refused :
      (o : Outcome) (w : World Database) → Lost c at w.db → Refused (write_outcome o c at) w
  unfolding apply_metadata sync_collection record_failure
  outcome-Refused (observed supply m) w h =
      rw ((state_from_metadata-total c.state m).0) (apply_observation-Refused supply m _ w h)
  outcome-Refused synced w h = sync-Refused c.collection_job_id w h
  outcome-Refused (gave_error code message retryable) w h = refused _ (unwritten c _ at _ _ _) w h

module _ (c : ClaimedReservation) (at later : Time) (le : at ≤ later) where
  abbrev Done : Session Database (Unit {0}) → Type 0
  Done m = Ensures (λ _. Unit {0}) m (λ _ db. Lost c later db) (λ _. Unit {0})

  no_claim : Frame (λ _. Unit {0})
  no_claim = record { at_streams = λ db ss h. tt; at_jobs = λ db js h. tt }

  apply_observation-Done :
      (supply : Supply) (m : Metadata) (answer : State × String)
      → Done (apply_observation supply c m at answer)
  unfolding apply_observation observed_row
  apply_observation-Done supply m (target, reason) =
      Ensures-transact {F = λ _. Unit {0}} _ (λ db p. tt)
        (Ensures-bind _ _ (observed_stream-Frame no_claim supply m) λ stream_id.
          Ensures-given _ λ a.
            Ensures-bind _ _ (collection_job-Frame no_claim supply target c.id stream_id) λ job_id.
              Ensures-given₂ _ λ b d.
                written-Lost c later _ (record { worker = λ r. refl }) _ at _ target reason le)

  sync-Done :
      (job_id : Option ℕ)
      → Done (elim job_id as (λ _. Session Database (Unit {0})) [
        | none ↦ raise (other "collecting reservation has no collection job")
        | some id ↦ sync_job c at id
      ])
  unfolding sync_job synced_row
  sync-Done none = Ensures-raise _ (λ db p. tt)
  sync-Done (some job_id) =
      Ensures-transact {F = λ _. Unit {0}} _ (λ db p. tt)
        (Ensures-bind {R = λ _ _. Unit {0}} _ _ (Ensures-select _ (λ db p a e. tt) (λ db p. tt))
          λ job.
            written-Lost c later _ (record { worker = λ r. refl }) _ at _ (sync_target job.status) _
              le)

  outcome-Done : (o : Outcome) → Done (write_outcome o c at)
  unfolding apply_metadata sync_collection record_failure failed_row
  outcome-Done (observed supply m) =
      rw ((state_from_metadata-total c.state m).0) (apply_observation-Done supply m _)
  outcome-Done synced = sync-Done c.collection_job_id
  outcome-Done (gave_error code message retryable) =
      Ensures-transact {F = λ _. Unit {0}} _ (λ db p. tt)
        (written-Lost c later _ (record { worker = λ r. refl }) _ at _ _ _ le)

  Lost-ok :
      (r : Result (Unit {0}) × World Database)
      → is_ok r.0 ≡ true
      → After (λ _ db. Lost c later db) (λ _. Unit {0}) r
      → Lost c later r.1.db
  Lost-ok (ok u, w) e h = h
  Lost-ok (err x, w) e h = absurd (cc)

-- A claim is good for one outcome. Once any of the three operations has succeeded under it, each of
-- them, called under the same claim at no earlier time and whatever calls fail, returns an error and
-- leaves the database as the first one left it.
pub outcome_once :
    (first second : Outcome) (c : ClaimedReservation) (at later : Time) (w : World Database)
    (faults : List Bool)
    → at ≤ later
    → is_ok (write_outcome first c at w).0 ≡ true
    → let v = record (write_outcome first c at w).1 { faults = faults } in
      (is_ok (write_outcome second c later v).0 ≡ false)
      × ((write_outcome second c later v).1.db ≡ v.db)
outcome_once first second c at later w faults le e = outcome-Refused c later second _ (
    Lost-ok c at later le (write_outcome first c at w) e
      ((outcome-Done c at later le first).at w tt))
