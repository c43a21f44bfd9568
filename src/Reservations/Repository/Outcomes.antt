-- ===== src/Reservations/Repository/Outcomes.antt =====
-- `SyncCollection` and `RecordFailure` of apps/api/internal/reservations/repository.go.
use stream_analysis_tools.Base.{
  ℕ, ◌+◌, ◌*◌, Bool, false, not, ◌&&◌, ◌||◌, Option, none, some, String, Time, ◌==◌, leb, minute,
  if◌then◌else◌,
}
use stream_analysis_tools.Collections.Model.{JobStatus}
use stream_analysis_tools.Errors.{other}
use stream_analysis_tools.Reservations.Model.{
  State, ClaimedReservation, state_eq, collecting, completed, failed,
}
use stream_analysis_tools.Reservations.Repository.Guarded.{logged}
use stream_analysis_tools.Reservations.Repository.Leases.{owns}
use stream_analysis_tools.Reservations.Repository.Rows.{or_no_rows, update_reservations}
use stream_analysis_tools.Reservations.Schedule.{bounded_backoff}
use stream_analysis_tools.Sql.Jobs.{for_reservation}
use stream_analysis_tools.Sql.Rows.{ReservationRow, JobRow, Database}
use stream_analysis_tools.Sql.Session.{Session, raise, ◌>>=◌, select, transact}
use stream_analysis_tools.Sql.Table.{find}

-- WHERE id = $1 AND reservation_id = $2
abbrev pub own_job : ℕ → ℕ → JobRow → Bool
own_job id reservation_id j = j.id == id && for_reservation reservation_id j

abbrev pub sync_target : JobStatus → State
sync_target JobStatus.succeeded = completed
sync_target _ = collecting

abbrev pub completed_at : State → Time → Option Time
completed_at completed at = some at
completed_at _ at = none

unfoldable pub synced_row : State → Time → ReservationRow → ReservationRow
synced_row target checked_at r = record r {
  state = target;
  next_check_at = checked_at + minute;
  last_checked_at = some checked_at;
  completed_at = completed_at target checked_at;
  worker_id = none;
  lease_expires_at = none;
  heartbeat_at = none;
  revision = r.revision + 1;
  updated_at = checked_at;
}

unfoldable pub sync_job : ClaimedReservation → Time → ℕ → Session Database (Unit {0})
sync_job claimed checked_at job_id = transact do
  job ← select λ db. or_no_rows (find (own_job job_id claimed.id) db.jobs)
  affected ←
      update_reservations (owns claimed checked_at) (synced_row (sync_target job.status) checked_at)
  logged affected (state_eq (sync_target job.status) completed) claimed (sync_target job.status)
      "collection_succeeded" checked_at

-- `SyncCollection`
unfoldable pub sync_collection : ClaimedReservation → Time → Session Database (Unit {0})
unfolding sync_job
sync_collection claimed checked_at = elim claimed.collection_job_id [
  | none ↦ raise (other "collecting reservation has no collection job")
  | some job_id ↦ sync_job claimed checked_at job_id
]

abbrev pub max_monitor_attempts : ℕ
max_monitor_attempts = 5

-- The columns that `RecordFailure` computes before it writes.
pub record Failure : Type 0 where
  pub target : State
  pub next_check_at : Time
  pub retryable : Bool
  pub failed_at : Option Time

-- `!retryable || attempt >= MaxMonitorAttempts`
unfoldable pub gives_up : ℕ → Bool → Bool
gives_up attempt retryable = not retryable || leb max_monitor_attempts attempt

unfoldable pub failure_of : State → ℕ → Time → Bool → Failure
unfolding gives_up bounded_backoff
failure_of state attempt checked_at retryable =
    if gives_up attempt retryable
    then record {
      target = failed;
      next_check_at = checked_at;
      retryable = false;
      failed_at = some checked_at;
    }
    else record {
      target = state;
      next_check_at = checked_at + bounded_backoff attempt minute (30 * minute);
      retryable = retryable;
      failed_at = none;
    }

unfoldable pub failed_row : Failure → Time → String → String → ReservationRow → ReservationRow
failed_row f checked_at code message r = record r {
  state = f.target;
  next_check_at = f.next_check_at;
  last_checked_at = some checked_at;
  monitor_attempt = r.monitor_attempt + 1;
  last_error_code = some code;
  last_error_message = some message;
  last_error_retryable = some f.retryable;
  failed_at = f.failed_at;
  worker_id = none;
  lease_expires_at = none;
  heartbeat_at = none;
  revision = r.revision + 1;
  updated_at = checked_at;
}

abbrev pub failure_reason : ℕ → String
failure_reason attempt =
    if leb max_monitor_attempts attempt
    then "monitoring_retries_exhausted"
    else "permanent_monitoring_failure"

-- `RecordFailure`
unfoldable pub record_failure :
    ClaimedReservation → Time → String → String → Bool → Session Database (Unit {0})
record_failure claimed checked_at code message retryable =
    let attempt = claimed.monitor_attempt + 1 in
    let f = failure_of claimed.state attempt checked_at retryable in
    transact do
      affected ←
          update_reservations (owns claimed checked_at) (failed_row f checked_at code message)
      logged affected (state_eq f.target failed) claimed f.target (failure_reason attempt)
          checked_at
