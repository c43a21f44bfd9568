-- ===== src/Collections/Repository/Start.antt =====
-- `Start` of apps/api/internal/collections/repository.go.
use stream_analysis_tools.Base.{
  ℕ, ◌≡◌, refl, sym, subst, ◌∙◌, inl, inr, Bool, true, false, List, [], ◌∷◌, none, some, All, arith,
  Time,
}
use stream_analysis_tools.Collections.Model.{Job}
use stream_analysis_tools.Collections.Repository.Jobs.{scan_job, requested_after, start}
use stream_analysis_tools.Collections.Repository.Pending.{
  Same, Started, lock-Known, find_active_job-Active, started-Started,
}
use stream_analysis_tools.Errors.{Result, ok, err}
use stream_analysis_tools.Sql.Jobs.{pending_for, is_pending, new_job}
use stream_analysis_tools.Sql.Rows.{JobRow, Database}
use stream_analysis_tools.Sql.Session.{World}
use stream_analysis_tools.Sql.Session.Ensures.{After, Ensures-bind, Ensures-transact, Ensures-given}
use stream_analysis_tools.Sql.Table.{first_by, earlier}

-- Whatever calls fail, `Start` answers in one of three ways. An error leaves the database as it was.
-- Otherwise the stream is there, and either the answer is the latest of its queued or running
-- chat replay jobs and nothing changes, or it has none and the answer is a new queued job without a
-- reservation, which is added.
pub start-Started :
    (fresh stream_id : ℕ) (now : Time) (w : World Database)
    → After (Started fresh stream_id now w.db) (λ db. db ≡ w.db) (start fresh now stream_id w)
unfolding start
start-Started fresh stream_id now w =
    (Ensures-transact {P = Same fresh stream_id now w.db} _ (λ db p. p)
        (Ensures-bind _ _ (lock-Known fresh stream_id now w.db) λ u. Ensures-given _ λ known.
          Ensures-bind _ _ (find_active_job-Active fresh stream_id now w.db)
            λ o. started-Started fresh stream_id now w.db o known)).at
      w refl

-- After `Start`, the job that it answers is the pending job of the stream.
module _ (stream_id : ℕ) where
  abbrev Pends : Job → Database → Type 0
  Pends job db =
      (j : JobRow) × (first_by requested_after (pending_for stream_id) db.jobs ≡ some j)
      × (job ≡ scan_job j)

  none_first :
      (rows : List JobRow)
      → All (λ j. pending_for stream_id j ≡ false) rows
      → first_by requested_after (pending_for stream_id) rows ≡ none
  unfolding first_by
  none_first [] h = refl
  none_first (j ∷ js) h = rw h.0 (none_first js h.1)

  new_pending :
      (fresh : ℕ) (now : Time) → pending_for stream_id (new_job fresh stream_id none now) ≡ true
  unfolding pending_for new_job is_pending
  new_pending fresh now = ground arith

  Started-Pends :
      (fresh : ℕ) (now : Time) (before : Database) (job : Job) (db : Database)
      → Started fresh stream_id now before job db
      → Pends job db
  unfolding first_by earlier
  Started-Pends fresh now before job db (known, inl (same, j)) = rw same j
  Started-Pends fresh now before job db (known, inr (made, written, _, free)) = rw written (
    new_job fresh stream_id none now,
    rw (new_pending fresh now) (rw (none_first before.jobs free) refl),
    made,
  )

  again :
      (fresh : ℕ) (now : Time) (before : Database) (first second : Job) (db : Database)
      → Pends first before
      → Started fresh stream_id now before second db
      → (second ≡ first) × (db ≡ before)
  again fresh now before first second db (j, e, made) (known, inl (same, (k, e', made'))) =
      (ground (arith, made, made', e, e'), same)
  again fresh now before first second db (j, e, made) (known, inr (_, _, _, free)) =
      absurd (ground (arith, none_first before.jobs free, e))

ok_inj : (x y : Job) → ok x ≡ ok y → x ≡ y
ok_inj x y e = ground arith

-- `Start` is idempotent: when two calls for a stream succeed one after the other, whatever fresh
-- identifiers and times they get, the second answers the same job and changes nothing.
pub start_idempotent :
    (stream_id fresh another : ℕ) (now later : Time) (w : World Database) (faults : List Bool)
    (first second : Job)
    → (start fresh now stream_id w).0 ≡ ok first
    → let v = record (start fresh now stream_id w).1 { faults = faults } in
      (start another later stream_id v).0 ≡ ok second
      → (second ≡ first) × ((start another later stream_id v).1.db ≡ v.db)
start_idempotent stream_id fresh another now later w faults first second e f =
    second_call _
      (after_ok (start fresh now stream_id w) first e (start-Started fresh stream_id now w)) _ f
      (start-Started another stream_id later _)
  where
    after_ok :
        (r : Result Job × World Database) (job : Job)
        → r.0 ≡ ok job
        → After (Started fresh stream_id now w.db) (λ db. db ≡ w.db) r
        → Pends stream_id job r.1.db
    after_ok (ok x, v) job e h =
        subst (λ y. Pends stream_id y v.db) (ok_inj x job e)
          (Started-Pends stream_id fresh now w.db x v.db h)
    after_ok (err x, v) job e h = absurd (cc)

    second_call :
        (before : Database)
        → Pends stream_id first before
        → (r : Result Job × World Database) → r.0 ≡ ok second
        → After (Started another stream_id later before) (λ db. db ≡ before) r
        → (second ≡ first) × (r.1.db ≡ before)
    second_call before p (ok x, v) e h =
        let (same, kept) = again stream_id another later before first x v.db p h in
        (sym (ok_inj x second e) ∙ same, kept)
    second_call before p (err x, v) e h = absurd (cc)
