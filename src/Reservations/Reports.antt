-- ===== src/Reservations/Reports.antt =====
-- What `RunOnce` of apps/api/internal/reservations/monitor.go does and reports.
use stream_analysis_tools.Base.{
  Bytes, ◌≡◌, ◌≢◌, Bool, true, false, Option, none, some, Time, String,
}
use stream_analysis_tools.Errors.{Error, Result, ok, err, video_unavailable}
use stream_analysis_tools.Reservations.Model.{ClaimedReservation, collecting}
use stream_analysis_tools.Reservations.Monitor.{Provider, Run, metric_of, identified}
use stream_analysis_tools.Reservations.Repository.Guarded.{Supply, apply_metadata}
use stream_analysis_tools.Reservations.Repository.Outcomes.{sync_collection, record_failure}
use stream_analysis_tools.Sql.Rows.{Database}
use stream_analysis_tools.Sql.Session.{World}
use stream_analysis_tools.Streams.Model.{Metadata}

-- What an error of `Fetch` means: code, message, and whether it is worth a retry.
pub data Diagnosis : Error → String → String → Bool → Type 0 where
  gone :
      Diagnosis video_unavailable "RESERVATION_VIDEO_NOT_FOUND" "The YouTube video is unavailable."
        false
  unanswered :
      (e : Error)
      → e ≢ video_unavailable
      → Diagnosis e "YOUTUBE_TEMPORARILY_UNAVAILABLE" "YouTube metadata is temporarily unavailable."
          true

-- A run that has worked on a reservation.
abbrev pub worked : ClaimedReservation → Option Error → String → String → Run
worked c e outcome code = record {
  did_work = true;
  error = e;
  metric = some (metric_of c outcome code);
}

module _ (provider : Provider) (supply : Supply) (at : Time) where
  -- The run and the database after it, by what `ClaimDue` answered, what `Fetch` answers, and what the
  -- operation answers that the run then calls.
  pub data IsReport
      : Result (Option ClaimedReservation) × World Database → Run × World Database → Type 0 where
    unclaimed :
        (e : Error) (w : World Database)
        → IsReport (err e, w) (record { did_work = false; error = some e; metric = none }, w)
    idle :
        (w : World Database)
        → IsReport (ok none, w) (record { did_work = false; error = none; metric = none }, w)
    synced :
        (c : ClaimedReservation) (w v : World Database)
        → c.state ≡ collecting
        → sync_collection c at w ≡ (ok tt, v)
        → IsReport (ok (some c), w) (worked c none "collection_synced" "", v)
    unsynced :
        (c : ClaimedReservation) (w v : World Database) (e : Error)
        → c.state ≡ collecting
        → sync_collection c at w ≡ (err e, v)
        → IsReport (ok (some c), w) (worked c (some e) "failed" "RESERVATION_PERSIST_FAILED", v)
    applied :
        (c : ClaimedReservation) (w v : World Database) (fetch : Bytes → Result Metadata)
        (m : Metadata)
        → c.state ≢ collecting
        → provider ≡ some fetch
        → fetch c.youtube_video_id ≡ ok m
        → apply_metadata supply c (identified c m) at w ≡ (ok tt, v)
        → IsReport (ok (some c), w) (worked c none "metadata_applied" "", v)
    unapplied :
        (c : ClaimedReservation) (w v : World Database) (fetch : Bytes → Result Metadata)
        (m : Metadata) (e : Error)
        → c.state ≢ collecting
        → provider ≡ some fetch
        → fetch c.youtube_video_id ≡ ok m
        → apply_metadata supply c (identified c m) at w ≡ (err e, v)
        → IsReport (ok (some c), w) (worked c (some e) "failed" "RESERVATION_PERSIST_FAILED", v)
    unfetched :
        (c : ClaimedReservation) (w v : World Database) (fetch : Bytes → Result Metadata)
        (e : Error) (code message : String) (retryable : Bool)
        → c.state ≢ collecting
        → provider ≡ some fetch
        → fetch c.youtube_video_id ≡ err e
        → Diagnosis e code message retryable
        → record_failure c at code message retryable w ≡ (ok tt, v)
        → IsReport (ok (some c), w) (worked c none "failed" code, v)
    unrecorded :
        (c : ClaimedReservation) (w v : World Database) (fetch : Bytes → Result Metadata)
        (e : Error) (code message : String) (retryable : Bool) (x : Error)
        → c.state ≢ collecting
        → provider ≡ some fetch
        → fetch c.youtube_video_id ≡ err e
        → Diagnosis e code message retryable
        → record_failure c at code message retryable w ≡ (err x, v)
        → IsReport (ok (some c), w) (worked c (some x) "failed" "RESERVATION_PERSIST_FAILED", v)
    misconfigured :
        (c : ClaimedReservation) (w : World Database) (e : Error)
        → c.state ≢ collecting
        → provider ≡ none
        → IsReport
            (ok (some c), w)
            (worked c (some e) "failed" "RESERVATION_MONITOR_MISCONFIGURED", w)
