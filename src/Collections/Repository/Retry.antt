-- ===== src/Collections/Repository/Retry.antt =====
-- `Retry` of apps/api/internal/collections/repository.go.
use stream_analysis_tools.Base.{
  ℕ, ◌≡◌, refl, ap, subst, ◌∙◌, inl, inr, true, Option, none, some, arith, Bool-cases, Time,
}
use stream_analysis_tools.Collections.Model.{Job}
use stream_analysis_tools.Collections.Repository.Jobs.{
  scan_job, scanned, stream_of, job_with, can_retry, retry_unless, retry_now, retry_failed, retry,
}
use stream_analysis_tools.Collections.Repository.Pending.{
  Added, Known, Active, lock-Known, find_active_job-Active, insert-Added,
}
use stream_analysis_tools.Errors.{ok}
use stream_analysis_tools.Sql.Rows.{JobRow, Database}
use stream_analysis_tools.Sql.Session.{World}
use stream_analysis_tools.Sql.Session.Ensures.{
  After, Ensures, Ensures-raise, Ensures-select, Ensures-bind, Ensures-transact, Ensures-given,
  Ensures-weaken, Ensures-map_err,
}
use stream_analysis_tools.Sql.Table.{find}

module _ (fresh : ℕ) (now : Time) (job_id : ℕ) (before : Database) where
  abbrev asked : Database → Option JobRow
  asked db = find (job_with job_id) db.jobs

  -- What `Retry` answers and leaves.
  abbrev pub Retried : Job → Database → Type 0
  Retried job db =
      (j : JobRow) × (asked before ≡ some j)
      × (can_retry (scan_job j) ≡ true)
      × Known fresh j.stream_id now before
      × Added fresh j.stream_id now before job db

  abbrev Kept : Database → Type 0
  Kept db = db ≡ before

  stream_found :
      (o : Option JobRow) (s : ℕ)
      → stream_of o ≡ ok s
      → (j : JobRow) × (o ≡ some j) × (s ≡ j.stream_id)
  stream_found none s e = cc
  stream_found (some j) s e = (j, refl, ground arith)

  job_found :
      (o : Option JobRow) (job : Job)
      → scanned o ≡ ok job
      → (j : JobRow) × (o ≡ some j) × (job ≡ scan_job j)
  job_found none job e = cc
  job_found (some j) job e = (j, refl, ground arith)

  unless_Added :
      (stream_id : ℕ) (o : Option Job)
      → Ensures
          (Active fresh stream_id now before o)
          (retry_unless fresh stream_id now o)
          (Added fresh stream_id now before)
          Kept
  unfolding retry_unless
  unless_Added stream_id none = insert-Added fresh stream_id now before
  unless_Added stream_id (some job) = Ensures-raise _ (λ db h. h.0)

  failed_Added :
      (stream_id : ℕ) (job : Job)
      → Ensures Kept
          (retry_failed fresh now stream_id job)
          (λ new db. (can_retry job ≡ true) × Added fresh stream_id now before new db)
          Kept
  unfolding retry_failed retry_now
  failed_Added stream_id job = elim (Bool-cases (can_retry job)) [
    | inl can ↦ rw can (
        Ensures-weaken _ (λ new db h. (refl, h))
          (Ensures-bind _ _ (find_active_job-Active fresh stream_id now before)
            (unless_Added stream_id)))
    | inr refused ↦ rw refused (Ensures-raise _ (λ db h. h))
  ]

  retried :
      (stream_id : ℕ) (job new : Job) (db : Database)
      → ((j : JobRow) × (asked before ≡ some j) × (stream_id ≡ j.stream_id))
      → ((j : JobRow) × (asked before ≡ some j) × (job ≡ scan_job j))
      → Known fresh stream_id now before
      → (can_retry job ≡ true) × Added fresh stream_id now before new db
      → Retried new db
  retried stream_id job new db (j, e, same) (k, e', made) known (can, added) =
      let twin : k ≡ j = ground (arith, e, e') in
      (
        j,
        e,
        subst (λ x. can_retry x ≡ true) (made ∙ ap scan_job twin) can,
        subst (λ s. Known fresh s now before) same known,
        subst (λ s. Added fresh s now before new db) same added,
      )

  retry-Ensures : Ensures Kept (retry fresh now job_id) Retried Kept
  unfolding retry
  retry-Ensures =
      Ensures-transact _ (λ db p. p)
        (Ensures-bind _ _
          (Ensures-map_err _ _ (
            Ensures-select _
              (λ db p s e. (
                p,
                subst (λ d. (j : JobRow) × (asked d ≡ some j) × (s ≡ j.stream_id)) p
                    (stream_found (asked db) s e),
              ))
              (λ db p. p)))
          λ stream_id. Ensures-given _ λ found_stream.
            Ensures-bind _ _ (lock-Known fresh stream_id now before) λ u. Ensures-given _ λ known.
              Ensures-bind _ _
                (Ensures-map_err _ _ (
                  Ensures-select _
                    (λ db p job e. (
                      p,
                      subst (λ d. (j : JobRow) × (asked d ≡ some j) × (job ≡ scan_job j)) p
                          (job_found (asked db) job e),
                    ))
                    (λ db p. p)))
                λ job. Ensures-given _ λ found_job.
                  Ensures-weaken _
                    (λ new db h. retried stream_id job new db found_stream found_job known h)
                    (failed_Added stream_id job))

-- Whatever calls fail, `Retry` answers in one of two ways. An error leaves the database as it was.
-- Otherwise the job that was asked for is there, it has failed with an error that is worth a retry,
-- its stream is there and has no queued or running chat replay job, and the answer is a new queued
-- job of that stream without a reservation, which is added.
pub retry-Retried :
    (fresh : ℕ) (now : Time) (job_id : ℕ) (w : World Database)
    → After (Retried fresh now job_id w.db) (λ db. db ≡ w.db) (retry fresh now job_id w)
retry-Retried fresh now job_id w = (retry-Ensures fresh now job_id w.db).at w refl
