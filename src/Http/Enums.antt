-- ===== src/Http/Enums.antt =====
-- The enums of apps/api/internal/generated/openapiv1/api.gen.go, each with the test of its texts,
-- and the texts of the states and statuses of the other packages.
use stream_analysis_tools.Base.{Bool, ◌||◌, Bytes, codes, bytes_eq, [], String, str_eq}
use stream_analysis_tools.Reservations.Model.{State}
use stream_analysis_tools.Streams.Model.{LifecycleStatus}

-- The constants of type `reservations.State`
abbrev pub state_text : State → String
state_text State.scheduled = "scheduled"
state_text State.monitoring = "monitoring"
state_text State.live = "live"
state_text State.waiting_for_archive = "waiting_for_archive"
state_text State.collecting = "collecting"
state_text State.completed = "completed"
state_text State.failed = "failed"
state_text State.canceled = "canceled"

-- The constants of type `streams.LifecycleStatus`, and the other texts.
abbrev pub lifecycle_text : LifecycleStatus → Bytes
lifecycle_text LifecycleStatus.unknown = codes "unknown"
lifecycle_text LifecycleStatus.scheduled = codes "scheduled"
lifecycle_text LifecycleStatus.live = codes "live"
lifecycle_text LifecycleStatus.ended = codes "ended"
lifecycle_text LifecycleStatus.unavailable = codes "unavailable"
lifecycle_text LifecycleStatus.blank = []
lifecycle_text (LifecycleStatus.unsupported text) = text

-- `CollectionJobCurrentStep.Valid`
unfoldable pub is_current_step : String → Bool
is_current_step e = str_eq e "chat_replay"

-- `CollectionJobKind.Valid`
unfoldable pub is_job_kind : String → Bool
is_job_kind e = str_eq e "chat_replay"

-- `CollectionJobStatus.Valid`
unfoldable pub is_job_status : String → Bool
is_job_status e =
    str_eq e "failed"
    || str_eq e "no_data"
    || str_eq e "queued"
    || str_eq e "running"
    || str_eq e "succeeded"

-- `HealthResponseStatus.Valid`
unfoldable pub is_health_status : String → Bool
is_health_status e = str_eq e "ok"

-- `ReservationState.Valid`
unfoldable pub is_reservation_state : String → Bool
is_reservation_state e =
    str_eq e "canceled"
    || str_eq e "collecting"
    || str_eq e "completed"
    || str_eq e "failed"
    || str_eq e "live"
    || str_eq e "monitoring"
    || str_eq e "scheduled"
    || str_eq e "waiting_for_archive"

-- `StreamLifecycleStatus.Valid`
unfoldable pub is_lifecycle_status : Bytes → Bool
is_lifecycle_status e =
    bytes_eq e (codes "ended")
    || bytes_eq e (codes "live")
    || bytes_eq e (codes "scheduled")
    || bytes_eq e (codes "unavailable")
    || bytes_eq e (codes "unknown")
