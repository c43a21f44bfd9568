-- ===== src/Collections/Repository/Pending.antt =====
-- What `Start` and `Retry` do to the jobs of a stream.
use stream_analysis_tools.Base.{
  ℕ, ◌≡◌, refl, ap, subst, ◌⊎◌, inl, inr, Bool, true, false, ◌&&◌, ◌||◌, ◌∷◌, Option, none, some,
  is_some, All, arith, Time, ◌==◌,
}
use stream_analysis_tools.Collections.Model.{Job}
use stream_analysis_tools.Collections.Repository.Jobs.{
  scan_job, scanned, row_found, has_stream, lock_stream, requested_after, find_active_job,
  insert_unreserved_job, started,
}
use stream_analysis_tools.Errors.{ok}
use stream_analysis_tools.Sql.Jobs.{is_pending, pending_for, new_job, insertion, insert_job}
use stream_analysis_tools.Sql.Rows.{JobRow, Database}
use stream_analysis_tools.Sql.Session.{optional}
use stream_analysis_tools.Sql.Session.Ensures.{
  Ensures, Ensures-pure, Ensures-statement, Ensures-select, Ensures-map_err, Ensures-bind,
  Ensures-lookup, Ensures-weaken,
}
use stream_analysis_tools.Sql.Table.{find, first_by}
use stream_analysis_tools.Sql.Table.Distinct.{find-none}

-- Two jobs of one key, or two jobs of one stream that are both queued or running.
unfoldable pub clashes : JobRow → JobRow → Bool
unfolding pending_for is_pending
clashes a b = a.id == b.id || (pending_for a.stream_id a && pending_for a.stream_id b)

-- What a successful INSERT found.
pub inserted :
    (row r : JobRow) (db db' : Database)
    → insertion row db ≡ ok (r, db')
    → (r ≡ row)
      × (db' ≡ record db { jobs = row ∷ db.jobs })
      × (find (λ j. j.id == row.id) db.jobs ≡ none)
      × (find (pending_for row.stream_id) db.jobs ≡ none)
inserted row r db db' e = ground arith

module _ (fresh stream_id : ℕ) (now : Time) (before : Database) where
  -- A queued job without a reservation was added for a stream that had no pending one.
  abbrev pub Added : Job → Database → Type 0
  Added job db =
      (job ≡ scan_job (new_job fresh stream_id none now))
      × (db ≡ record before { jobs = new_job fresh stream_id none now ∷ before.jobs })
      × All (λ j. (j.id == fresh) ≡ false) before.jobs
      × All (λ j. pending_for stream_id j ≡ false) before.jobs

  abbrev pub Same : Database → Type 0
  Same db = db ≡ before

  inserted-Added :
      (db : Database)
      → db ≡ before
      → (r : JobRow) (db' : Database)
      → insertion (new_job fresh stream_id none now) db ≡ ok (r, db')
      → (r ≡ new_job fresh stream_id none now) × Added (scan_job r) db'
  unfolding new_job
  inserted-Added db p r db' e =
      let (row, written, no_key, no_active) =
        inserted (new_job fresh stream_id none now) r before db'
          (subst (λ d. insertion (new_job fresh stream_id none now) d ≡ ok (r, db')) p e) in
      (
        row,
        (
          ap scan_job row,
          written,
          find-none clashes _ before.jobs no_key,
          find-none clashes _ before.jobs no_active,
        ),
      )

  pub insert-Added : Ensures Same (insert_unreserved_job fresh stream_id now) Added Same
  unfolding insert_unreserved_job insert_job
  insert-Added =
      Ensures-bind _ _
        (Ensures-statement
          {Q = λ r db. (r ≡ new_job fresh stream_id none now) × Added (scan_job r) db} _
          (λ db p r db' e. inserted-Added db p r db' e) (λ db p. p))
        (λ r. Ensures-pure (scan_job r) (λ db h. h.1))

  -- The stream is there.
  abbrev pub Known : Type 0
  Known = is_some (find (has_stream stream_id) before.streams) ≡ true

  stream_known :
      {u : Unit {0}} (db : Database)
      → db ≡ before
      → row_found (find (has_stream stream_id) db.streams) ≡ ok u
      → Known
  stream_known db p e = ground (arith, p)

  pub lock-Known : Ensures Same (lock_stream stream_id) (λ _ db. Same db × Known) Same
  unfolding lock_stream
  lock-Known =
      Ensures-map_err _ _ (Ensures-select _ (λ db p u e. (p, stream_known db p e)) (λ db p. p))

  -- The answer of the query for a pending job.
  abbrev pub Active : Option Job → Database → Type 0
  Active none db = Same db
  Active (some job) db =
      Same db
      × ((j : JobRow) × (first_by requested_after (pending_for stream_id) before.jobs ≡ some j)
          × (job ≡ scan_job j))

  abbrev chosen : Database → Option JobRow
  chosen db = first_by requested_after (pending_for stream_id) db.jobs

  active_found :
      (o : Option JobRow) (job : Job)
      → scanned o ≡ ok job
      → (j : JobRow) × (o ≡ some j) × (job ≡ scan_job j)
  active_found none job e = cc
  active_found (some j) job e = (j, refl, ground arith)

  pub find_active_job-Active : Ensures Same (optional (find_active_job stream_id)) Active Same
  unfolding find_active_job
  find_active_job-Active =
      Ensures-lookup _
        (λ db p job e. (
          p,
          subst (λ d. (j : JobRow) × (chosen d ≡ some j) × (job ≡ scan_job j)) p
              (active_found (chosen db) job e),
        ))
        (λ db p e. p) (λ db p. p)

  -- What `Start` answers and leaves.
  abbrev pub Started : Job → Database → Type 0
  Started job db = Known × (Active (some job) db ⊎ Added job db)

  pub started-Started :
      (o : Option Job) → Known → Ensures (Active o) (started fresh stream_id now o) Started Same
  unfolding started
  started-Started none k = Ensures-weaken _ (λ job db h. (k, inr h)) insert-Added
  started-Started (some job) k = Ensures-pure job (λ db h. (k, inl h))
