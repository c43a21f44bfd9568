-- ===== src/Sql/Jobs.antt =====
-- Rows of collection.collection_jobs (migrations/000002 and 000006): the INSERT that two packages
-- send, against the unique constraints of the table.
use stream_analysis_tools.Base.{
  ℕ, Bool, true, false, ◌&&◌, ◌∷◌, Option, none, some, str_eq, Time, ◌==◌, is_some, if◌then◌else◌,
}
use stream_analysis_tools.Collections.Model.{JobStatus, queued, running}
use stream_analysis_tools.Errors.{Result, ok, err, unique_violation}
use stream_analysis_tools.Sql.Rows.{JobRow, Database}
use stream_analysis_tools.Sql.Session.{Session, statement}
use stream_analysis_tools.Sql.Table.{find}

-- status IN ('queued', 'running')
unfoldable pub is_pending : JobStatus → Bool
is_pending queued = true
is_pending running = true
is_pending _ = false

-- WHERE stream_id = $1 AND kind = 'chat_replay' AND status IN ('queued', 'running')
unfoldable pub pending_for : ℕ → JobRow → Bool
unfolding is_pending
pending_for stream_id j =
    j.stream_id == stream_id && str_eq j.kind "chat_replay" && is_pending j.status

abbrev pub same_id : Option ℕ → Option ℕ → Bool
same_id none b = false
same_id (some a) none = false
same_id (some a) (some b) = a == b

-- WHERE reservation_id = $1
unfoldable pub for_reservation : ℕ → JobRow → Bool
for_reservation id j = same_id j.reservation_id (some id)

-- The row that the INSERT adds, with the table's defaults.
unfoldable pub new_job : ℕ → ℕ → Option ℕ → Time → JobRow
new_job id stream_id reservation_id now = record {
  id = id;
  stream_id = stream_id;
  reservation_id = reservation_id;
  kind = "chat_replay";
  status = queued;
  attempt = 0;
  processed_count = 0;
  skipped_count = 0;
  requested_at = now;
  started_at = none;
  updated_at = now;
  finished_at = none;
  error_code = none;
}

-- INSERT INTO collection.collection_jobs … RETURNING …; `id` and `now` are what gen_random_uuid()
-- and CURRENT_TIMESTAMP give.
abbrev pub insertion : JobRow → Database → Result (JobRow × Database)
insertion row db =
    if is_some (find (λ j. j.id == row.id) db.jobs)
    then err (unique_violation "collection_jobs_pkey")
    else if is_some (find (pending_for row.stream_id) db.jobs)
    then err (unique_violation "collection_jobs_one_active_per_stream_kind_idx")
    else if is_some (find (λ j. same_id j.reservation_id row.reservation_id) db.jobs)
    then err (unique_violation "collection_jobs_reservation_uidx")
    else ok (row, record db { jobs = row ∷ db.jobs })

unfoldable pub insert_job : ℕ → ℕ → Option ℕ → Time → Session Database JobRow
unfolding statement
insert_job id stream_id reservation_id now =
    statement (insertion (new_job id stream_id reservation_id now))
