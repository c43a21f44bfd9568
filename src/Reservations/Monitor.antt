-- ===== src/Reservations/Monitor.antt =====
-- apps/api/internal/reservations/monitor.go. The metadata provider is an argument: what `Fetch`
-- answers for a video. A repository that cannot be reached is part of the session.
use stream_analysis_tools.Base.{
  ℕ, ℤ, Bool, true, false, Bytes, Option, none, some, String, Time, if◌then◌else◌,
}
use stream_analysis_tools.Errors.{Error, Result, ok, err, other, video_unavailable}
use stream_analysis_tools.Reservations.Model.{State, ClaimedReservation, state_eq, collecting}
use stream_analysis_tools.Reservations.Repository.Guarded.{Supply, apply_metadata}
use stream_analysis_tools.Reservations.Repository.Leases.{claim_due}
use stream_analysis_tools.Reservations.Repository.Outcomes.{sync_collection, record_failure}
use stream_analysis_tools.Sql.Rows.{Database}
use stream_analysis_tools.Sql.Session.{World}
use stream_analysis_tools.Streams.Model.{Metadata}

-- `streams.MetadataProvider`; `none` is a monitor without one.
abbrev pub Provider : Type 0
Provider = Option (Bytes → Result Metadata)

-- The fields of a `MonitorMetric` that the run decides; the claimed reservation gives the others.
pub record Metric : Type 0 where
  pub reservation_id : ℕ
  pub state : State
  pub attempt : ℕ
  pub outcome : String
  pub error_code : String

-- What `RunOnce` returns, and the metric that it observes, if it claimed something.
pub record Run : Type 0 where
  pub did_work : Bool
  pub error : Option Error
  pub metric : Option Metric

unfoldable pub metric_of : ClaimedReservation → String → String → Metric
metric_of claimed outcome code = record {
  reservation_id = claimed.id;
  state = claimed.state;
  attempt = claimed.monitor_attempt;
  outcome = outcome;
  error_code = code;
}

-- `if err != nil { outcome, errorCode = "failed", "RESERVATION_PERSIST_FAILED" } else { … }`
unfoldable pub persisted :
    ClaimedReservation → String → Result (Unit {0}) × World Database → Run × World Database
unfolding metric_of
persisted claimed outcome (ok _, w) =
    (record { did_work = true; error = none; metric = some (metric_of claimed outcome "") }, w)
persisted claimed outcome (err e, w) = (
  record {
    did_work = true;
    error = some e;
    metric = some (metric_of claimed "failed" "RESERVATION_PERSIST_FAILED");
  },
  w,
)

-- The metric of a failed fetch keeps the failure's code unless the failure cannot be recorded.
unfoldable pub recorded :
    ClaimedReservation → String → Result (Unit {0}) × World Database → Run × World Database
unfolding metric_of
recorded claimed code (ok _, w) =
    (record { did_work = true; error = none; metric = some (metric_of claimed "failed" code) }, w)
recorded claimed code (err e, w) = (
  record {
    did_work = true;
    error = some e;
    metric = some (metric_of claimed "failed" "RESERVATION_PERSIST_FAILED");
  },
  w,
)

-- What a fetch error is recorded as: its code, its message, and whether it is worth a retry.
abbrev pub failure_code : Error → String
failure_code video_unavailable = "RESERVATION_VIDEO_NOT_FOUND"
failure_code _ = "YOUTUBE_TEMPORARILY_UNAVAILABLE"

abbrev pub failure_message : Error → String
failure_message video_unavailable = "The YouTube video is unavailable."
failure_message _ = "YouTube metadata is temporarily unavailable."

abbrev pub failure_retryable : Error → Bool
failure_retryable video_unavailable = false
failure_retryable _ = true

-- `metadata.YouTubeVideoID = …; metadata.CanonicalURL = …`
abbrev pub identified : ClaimedReservation → Metadata → Metadata
identified claimed m = record m {
  youtube_video_id = claimed.youtube_video_id;
  canonical_url = claimed.source_url;
}

unfoldable pub fetched :
    Supply → ClaimedReservation → Time → Result Metadata → World Database → Run × World Database
unfolding persisted recorded
fetched supply claimed checked_at (ok m) w =
    persisted claimed "metadata_applied"
      (apply_metadata supply claimed (identified claimed m) checked_at w)
fetched supply claimed checked_at (err e) w =
    recorded claimed (failure_code e) (
      record_failure claimed checked_at (failure_code e) (failure_message e) (failure_retryable e)
        w)

unfoldable pub look_up :
    Provider → Supply → ClaimedReservation → Time → World Database → Run × World Database
unfolding fetched metric_of
look_up none supply claimed checked_at w = (
  record {
    did_work = true;
    error = some (other "reservation metadata provider is required");
    metric = some (metric_of claimed "failed" "RESERVATION_MONITOR_MISCONFIGURED");
  },
  w,
)
look_up (some fetch) supply claimed checked_at w =
    fetched supply claimed checked_at (fetch claimed.youtube_video_id) w

unfoldable pub check_claimed :
    Provider → Supply → ClaimedReservation → Time → World Database → Run × World Database
unfolding look_up persisted
check_claimed provider supply claimed checked_at w =
    if state_eq claimed.state collecting
    then persisted claimed "collection_synced" (sync_collection claimed checked_at w)
    else look_up provider supply claimed checked_at w

unfoldable pub after_claim :
    Provider
    → Supply
    → Time
    → Result (Option ClaimedReservation) × World Database
    → Run × World Database
unfolding check_claimed
after_claim provider supply checked_at (err e, w) =
    (record { did_work = false; error = some e; metric = none }, w)
after_claim provider supply checked_at (ok none, w) =
    (record { did_work = false; error = none; metric = none }, w)
after_claim provider supply checked_at (ok (some claimed), w) =
    check_claimed provider supply claimed checked_at w

-- `RunOnce`
unfoldable pub run_once :
    Provider → Supply → String → Time → ℤ → World Database → Run × World Database
unfolding after_claim
run_once provider supply worker_id checked_at lease_duration w =
    after_claim provider supply checked_at (claim_due worker_id checked_at lease_duration w)
