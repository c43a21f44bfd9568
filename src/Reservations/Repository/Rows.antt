-- ===== src/Reservations/Repository/Rows.antt =====
-- Rows of apps/api/internal/reservations/repository.go: scanning, and the two statements that every
-- operation sends.
use stream_analysis_tools.Base.{ℕ, Bool, ◌∷◌, Option, none, some, String, Time, ◌==◌}
use stream_analysis_tools.Collections.Model.{JobStatus}
use stream_analysis_tools.Errors.{Result, ok, err, no_rows, unique_violation}
use stream_analysis_tools.Reservations.Model.{State, Reservation, ClaimedReservation}
use stream_analysis_tools.Sql.Rows.{ReservationRow, TransitionRow, JobRow, Database}
use stream_analysis_tools.Sql.Session.{Session, execute, checked}
use stream_analysis_tools.Sql.Table.{find, is_distinct, count, update}
use stream_analysis_tools.Sql.Jobs.{same_id}

abbrev pub status_text : JobStatus → String
status_text JobStatus.queued = "queued"
status_text JobStatus.running = "running"
status_text JobStatus.succeeded = "succeeded"
status_text JobStatus.no_data = "no_data"
status_text JobStatus.failed = "failed"

abbrev pub or_no_rows {ℓ} : {A : Type ℓ} → Option A → Result A
or_no_rows none = err no_rows
or_no_rows (some a) = ok a

abbrev pub job_of : Database → Option ℕ → Option JobRow
job_of db none = none
job_of db (some id) = find (λ j. j.id == id) db.jobs

-- `scanReservation` on a row of `SELECT publicReservationColumns … LEFT JOIN collection_jobs`.
unfoldable pub scan_reservation : ReservationRow → Option JobRow → Reservation
scan_reservation r job = record {
  id = r.id;
  youtube_video_id = r.youtube_video_id;
  source_url = r.source_url;
  state = r.state;
  scheduled_start_at = r.scheduled_start_at;
  actual_start_at = r.actual_start_at;
  actual_end_at = r.actual_end_at;
  next_check_at = r.next_check_at;
  last_checked_at = r.last_checked_at;
  monitor_attempt = r.monitor_attempt;
  last_error_code = r.last_error_code;
  last_error_message = r.last_error_message;
  last_error_retryable = r.last_error_retryable;
  stream_id = r.stream_id;
  collection_job_id = r.collection_job_id;
  collection_status = elim job [ none ↦ none | some j ↦ some (status_text j.status) ];
  collection_error_code = elim job [ none ↦ none | some j ↦ j.error_code ];
  created_at = r.created_at;
  updated_at = r.updated_at;
}

-- `scanClaimedReservation` on a row of `claimedReservationColumns`. The columns that it leaves out
-- keep Go's zero values.
unfoldable pub scan_claimed_reservation : ReservationRow → ClaimedReservation
scan_claimed_reservation r = record {
  reservation = record {
    id = r.id;
    youtube_video_id = r.youtube_video_id;
    source_url = r.source_url;
    state = r.state;
    scheduled_start_at = r.scheduled_start_at;
    actual_start_at = r.actual_start_at;
    actual_end_at = r.actual_end_at;
    next_check_at = r.next_check_at;
    last_checked_at = r.last_checked_at;
    monitor_attempt = r.monitor_attempt;
    last_error_code = r.last_error_code;
    last_error_message = r.last_error_message;
    last_error_retryable = r.last_error_retryable;
    stream_id = r.stream_id;
    collection_job_id = r.collection_job_id;
    collection_status = none;
    collection_error_code = none;
    created_at = 0;
    updated_at = 0;
  };
  lease = record {
    worker_id = elim r.worker_id [ none ↦ "" | some w ↦ w ];
    heartbeat_at = elim r.heartbeat_at [ none ↦ 0 | some t ↦ t ];
    expires_at = elim r.lease_expires_at [ none ↦ 0 | some t ↦ t ];
    revision = r.revision;
  };
}

-- WHERE r.id = $1
abbrev pub has_id : ℕ → ReservationRow → Bool
has_id id r = r.id == id

-- Two rows that the unique index reservations_collection_job_uidx keeps apart.
abbrev pub same_job : ReservationRow → ReservationRow → Bool
same_job a b = same_id a.collection_job_id b.collection_job_id

-- UPDATE reservation.reservations SET … WHERE …, against that index; the result counts the rows
-- affected.
unfoldable pub update_reservations :
    (ReservationRow → Bool) → (ReservationRow → ReservationRow) → Session Database ℕ
unfolding checked
update_reservations test set =
    checked (λ db. is_distinct same_job db.reservations)
      (unique_violation "reservations_collection_job_uidx")
      λ db.
        (count test db.reservations, record db { reservations = update test set db.reservations })

-- INSERT INTO reservation.reservation_transitions
unfoldable pub insert_transition :
    ℕ → Option State → State → String → Time → Session Database (Unit {0})
unfolding execute
insert_transition id from to reason at = execute λ db.
    let row : TransitionRow = record {
      reservation_id = id;
      from_state = from;
      to_state = to;
      reason_code = reason;
      created_at = at;
    } in
    (tt, record db { transitions = row ∷ db.transitions })
