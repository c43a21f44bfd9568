-- ===== src/Collections/Repository/Jobs.antt =====
-- `Start`, `Latest` and `Retry` of apps/api/internal/collections/repository.go.
use stream_analysis_tools.Base.{
  ℕ, Bool, true, false, ◌&&◌, ◌||◌, Option, none, some, String, str_eq, Time, ◌==◌, ltb, is_some,
  if◌then◌else◌,
}
use stream_analysis_tools.Collections.Model.{JobStatus, Job, SafeError, safe_error_for}
use stream_analysis_tools.Errors.{
  Error, Result, ok, err, no_rows, collection_stream_not_found, job_not_found, not_retryable,
  active_job,
}
use stream_analysis_tools.Sql.Jobs.{pending_for, insert_job}
use stream_analysis_tools.Sql.Rows.{JobRow, StreamRow, Database}
use stream_analysis_tools.Sql.Session.{
  Session, pure, raise, map_err, optional, ◌>>=◌, ◌>>◌, select, transact,
}
use stream_analysis_tools.Sql.Table.{find, first_by}

abbrev pub safe_error_of : Option String → Option SafeError
safe_error_of none = none
safe_error_of (some code) = some (safe_error_for code)

-- `scanJob` on a row of `jobColumns`.
unfoldable pub scan_job : JobRow → Job
scan_job j = record {
  id = j.id;
  stream_id = j.stream_id;
  kind = j.kind;
  status = j.status;
  attempt = j.attempt;
  processed_count = j.processed_count;
  skipped_count = j.skipped_count;
  requested_at = j.requested_at;
  started_at = j.started_at;
  updated_at = j.updated_at;
  finished_at = j.finished_at;
  error = safe_error_of j.error_code;
}

-- `scanJob(QueryRow(…))`
abbrev pub scanned : Option JobRow → Result Job
scanned none = err no_rows
scanned (some j) = ok (scan_job j)

abbrev pub row_found {ℓ} : {A : Type ℓ} → Option A → Result (Unit {0})
row_found none = err no_rows
row_found (some a) = ok tt

-- What an operation makes of pgx.ErrNoRows.
abbrev pub or_not_found : Error → Error → Error
or_not_found missing no_rows = missing
or_not_found missing e = e

abbrev pub has_stream : ℕ → StreamRow → Bool
has_stream id s = s.id == id

-- `lockStream`
unfoldable pub lock_stream : ℕ → Session Database (Unit {0})
lock_stream stream_id =
    map_err (or_not_found collection_stream_not_found)
      (select λ db. row_found (find (has_stream stream_id) db.streams))

-- ORDER BY requested_at DESC, id DESC
unfoldable pub requested_after : JobRow → JobRow → Bool
requested_after a b =
    ltb b.requested_at a.requested_at || (a.requested_at == b.requested_at && ltb b.id a.id)

-- `activeJob`
unfoldable pub find_active_job : ℕ → Session Database Job
find_active_job stream_id =
    select λ db. scanned (first_by requested_after (pending_for stream_id) db.jobs)

-- `insertJob`, which names no reservation
unfoldable pub insert_unreserved_job : ℕ → ℕ → Time → Session Database Job
insert_unreserved_job fresh stream_id now = do
  row ← insert_job fresh stream_id none now
  pure (scan_job row)

unfoldable pub started : ℕ → ℕ → Time → Option Job → Session Database Job
unfolding insert_unreserved_job
started fresh stream_id now (some job) = pure job
started fresh stream_id now none = insert_unreserved_job fresh stream_id now

-- `Start`
unfoldable pub start : ℕ → Time → ℕ → Session Database Job
unfolding started
start fresh now stream_id = transact do
  lock_stream stream_id
  active ← optional (find_active_job stream_id)
  started fresh stream_id now active

-- WHERE stream_id = $1 AND kind = 'chat_replay'
abbrev pub replay_of : ℕ → JobRow → Bool
replay_of stream_id j = j.stream_id == stream_id && str_eq j.kind "chat_replay"

-- `SELECT EXISTS (SELECT 1 FROM stream.streams WHERE id = $1)`, and the answer without a stream
unfoldable pub require_stream : ℕ → Session Database (Unit {0})
require_stream stream_id = do
  exists ← select λ db. ok (is_some (find (has_stream stream_id) db.streams))
  if exists then pure tt else raise collection_stream_not_found

-- `Latest`
unfoldable pub latest : ℕ → Session Database Job
unfolding require_stream
latest stream_id = do
  require_stream stream_id
  map_err (or_not_found job_not_found)
      (select λ db. scanned (first_by requested_after (replay_of stream_id) db.jobs))

abbrev pub job_with : ℕ → JobRow → Bool
job_with id j = j.id == id

abbrev pub stream_of : Option JobRow → Result ℕ
stream_of none = err no_rows
stream_of (some j) = ok j.stream_id

abbrev pub error_retryable : Option SafeError → Bool
error_retryable none = false
error_retryable (some e) = e.retryable

abbrev pub is_failed : JobStatus → Bool
is_failed JobStatus.failed = true
is_failed _ = false

-- failed.Status != StatusFailed || failed.Error == nil || !failed.Error.Retryable
unfoldable pub can_retry : Job → Bool
can_retry job = is_failed job.status && error_retryable job.error

unfoldable pub retry_unless : ℕ → ℕ → Time → Option Job → Session Database Job
unfolding insert_unreserved_job
retry_unless fresh stream_id now (some job) = raise active_job
retry_unless fresh stream_id now none = insert_unreserved_job fresh stream_id now

unfoldable pub retry_now : ℕ → Time → ℕ → Session Database Job
unfolding retry_unless
retry_now fresh now stream_id = do
  active ← optional (find_active_job stream_id)
  retry_unless fresh stream_id now active

unfoldable pub retry_failed : ℕ → Time → ℕ → Job → Session Database Job
unfolding retry_now
retry_failed fresh now stream_id failed =
    if can_retry failed then retry_now fresh now stream_id else raise not_retryable

-- `Retry`
unfoldable pub retry : ℕ → Time → ℕ → Session Database Job
unfolding retry_failed
retry fresh now job_id = transact do
  stream_id ←
      map_err (or_not_found job_not_found) (select λ db. stream_of (find (job_with job_id) db.jobs))
  lock_stream stream_id
  failed ←
      map_err (or_not_found job_not_found) (select λ db. scanned (find (job_with job_id) db.jobs))
  retry_failed fresh now stream_id failed
