-- ===== src/Reservations/Model.antt =====
-- apps/api/internal/reservations/model.go: the states, the events and the transition table.
use stream_analysis_tools.Base.{ℕ, Bool, true, false, Option, none, some, String, Bytes}
use stream_analysis_tools.Errors.{Result, ok, err, invalid_transition}

pub data State : Type 0 where
  scheduled monitoring live waiting_for_archive collecting completed failed canceled : State

pub data Event : Type 0 where
  monitor broadcast_started broadcast_ended archive_ready collection_succeeded cancel : Event
  transient_monitoring_failure permanent_monitoring_failure collection_failed : Event

-- Go's `==` on states.
unfoldable pub state_eq : State → State → Bool
state_eq scheduled scheduled = true
state_eq monitoring monitoring = true
state_eq live live = true
state_eq waiting_for_archive waiting_for_archive = true
state_eq collecting collecting = true
state_eq completed completed = true
state_eq failed failed = true
state_eq canceled canceled = true
state_eq _ _ = false

pub record Reservation : Type 0 where
  pub id : ℕ
  pub youtube_video_id : Bytes
  pub source_url : Bytes
  pub state : State
  pub scheduled_start_at : Option ℕ
  pub actual_start_at : Option ℕ
  pub actual_end_at : Option ℕ
  pub next_check_at : ℕ
  pub last_checked_at : Option ℕ
  pub monitor_attempt : ℕ
  pub last_error_code : Option String
  pub last_error_message : Option String
  pub last_error_retryable : Option Bool
  pub stream_id : Option ℕ
  pub collection_job_id : Option ℕ
  pub collection_status : Option String
  pub collection_error_code : Option String
  pub created_at : ℕ
  pub updated_at : ℕ

-- `Reservation.CanCancel`, which reads the state only.
unfoldable pub can_cancel : State → Bool
can_cancel scheduled = true
can_cancel monitoring = true
can_cancel live = true
can_cancel waiting_for_archive = true
can_cancel _ = false

pub record Lease : Type 0 where
  pub worker_id : String
  pub heartbeat_at : ℕ
  pub expires_at : ℕ
  pub revision : ℕ

-- `ClaimedReservation` embeds `Reservation`: `c.state` is `c.reservation.state`.
pub record ClaimedReservation : Type 0 where
  pub reservation : Reservation
  pub open reservation use *
  pub lease : Lease

-- The two-level map `transitions`; a missing key is `none`.
unfoldable pub transitions : State → Event → Option State
transitions scheduled monitor = some monitoring
transitions scheduled broadcast_started = some live
transitions scheduled broadcast_ended = some waiting_for_archive
transitions scheduled cancel = some canceled
transitions scheduled transient_monitoring_failure = some scheduled
transitions scheduled permanent_monitoring_failure = some failed
transitions monitoring broadcast_started = some live
transitions monitoring broadcast_ended = some waiting_for_archive
transitions monitoring cancel = some canceled
transitions monitoring transient_monitoring_failure = some monitoring
transitions monitoring permanent_monitoring_failure = some failed
transitions live broadcast_ended = some waiting_for_archive
transitions live cancel = some canceled
transitions live transient_monitoring_failure = some live
transitions live permanent_monitoring_failure = some failed
transitions waiting_for_archive archive_ready = some collecting
transitions waiting_for_archive cancel = some canceled
transitions waiting_for_archive transient_monitoring_failure = some waiting_for_archive
transitions waiting_for_archive permanent_monitoring_failure = some failed
transitions collecting collection_succeeded = some completed
transitions collecting collection_failed = some collecting
transitions _ _ = none

-- `Transition`. Beside an error Go also returns `from`, which no caller reads.
unfoldable pub transition : State → Event → Result State
transition from event = elim (transitions from event) [
  | none ↦ err invalid_transition
  | some to ↦ ok to
]
