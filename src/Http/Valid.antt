-- ===== src/Http/Valid.antt =====
-- The enums in the responses of apps/api/internal/httpapi/router.go, by the tests of
-- apps/api/internal/generated/openapiv1/api.gen.go.
use stream_analysis_tools.Base.{
  ℕ, ◌≡◌, refl, Bool, true, Bytes, bytes_eq, Option, none, some, String,
}
use stream_analysis_tools.Collections.Model.{JobStatus, Job, public_status, current_step}
use stream_analysis_tools.Errors.{ok}
use stream_analysis_tools.Http.Enums.{
  state_text, lifecycle_text, is_job_status, is_current_step, is_reservation_state,
  is_lifecycle_status,
}
use stream_analysis_tools.Http.Responses.{
  collection_job_response, reservation_response, metadata_response,
}
use stream_analysis_tools.Reservations.Model.{State}
use stream_analysis_tools.Reservations.Repository.Rows.{scan_reservation, status_text}
use stream_analysis_tools.Sql.Rows.{ReservationRow, JobRow}
use stream_analysis_tools.Streams.Model.{LifecycleStatus, Metadata}
use stream_analysis_tools.Streams.Normalize.{is_valid, normalize_metadata, status_valid}

-- What holds of a member that may be left out.
abbrev pub IfSome : (String → Bool) → Option String → Type 0
IfSome test none = Unit
IfSome test (some text) = test text ≡ true

status-Valid : (s : JobStatus) → is_job_status (status_text s) ≡ true
unfolding is_job_status
status-Valid JobStatus.queued = refl
status-Valid JobStatus.running = refl
status-Valid JobStatus.succeeded = refl
status-Valid JobStatus.no_data = refl
status-Valid JobStatus.failed = refl

state-Valid : (s : State) → is_reservation_state (state_text s) ≡ true
unfolding is_reservation_state
state-Valid State.scheduled = refl
state-Valid State.monitoring = refl
state-Valid State.live = refl
state-Valid State.waiting_for_archive = refl
state-Valid State.collecting = refl
state-Valid State.completed = refl
state-Valid State.failed = refl
state-Valid State.canceled = refl

step-Valid : (job : Job) → IfSome is_current_step (current_step job)
unfolding is_current_step current_step
step-Valid job = by_status job.status
  where
    by_status : (s : JobStatus) → IfSome is_current_step (current_step (record job { status = s }))
    by_status JobStatus.queued = refl
    by_status JobStatus.running = refl
    by_status JobStatus.succeeded = tt
    by_status JobStatus.no_data = tt
    by_status JobStatus.failed = tt

lifecycle-Valid :
    (s : LifecycleStatus) → is_valid s ≡ true → is_lifecycle_status (lifecycle_text s) ≡ true
unfolding is_lifecycle_status is_valid bytes_eq
lifecycle-Valid LifecycleStatus.unknown h = refl
lifecycle-Valid LifecycleStatus.scheduled h = refl
lifecycle-Valid LifecycleStatus.live h = refl
lifecycle-Valid LifecycleStatus.ended h = refl
lifecycle-Valid LifecycleStatus.unavailable h = refl
lifecycle-Valid LifecycleStatus.blank h = absurd (cc)
lifecycle-Valid (LifecycleStatus.unsupported text) h = absurd (cc)

row_status-Valid :
    (r : ReservationRow) (j : Option JobRow)
    → IfSome is_job_status (reservation_response (scan_reservation r j)).collection_status
unfolding reservation_response scan_reservation
row_status-Valid r none = tt
row_status-Valid r (some j) = status-Valid j.status

-- The contract's enums cover the responses: the status and the step of every job, the state of every
-- reservation read from its row and the status of its job, and the lifecycle status of metadata that
-- has been normalized.
pub responses-Valid :
    (uuid_string : ℕ → Bytes) (job : Job) (r : ReservationRow) (j : Option JobRow) (m n : Metadata)
    → normalize_metadata m ≡ ok n
    → (is_job_status (collection_job_response uuid_string job).status ≡ true)
      × IfSome is_current_step (collection_job_response uuid_string job).current_step
      × (is_reservation_state (reservation_response (scan_reservation r j)).state ≡ true)
      × IfSome is_job_status (reservation_response (scan_reservation r j)).collection_status
      × (is_lifecycle_status (metadata_response n).lifecycle_status ≡ true)
unfolding collection_job_response reservation_response scan_reservation metadata_response
responses-Valid uuid_string job r j m n e = (
  status-Valid (public_status job),
  step-Valid job,
  state-Valid r.state,
  row_status-Valid r j,
  lifecycle-Valid n.lifecycle_status (status_valid m n e),
)
