-- ===== src/Reservations/Examples.antt =====
-- The theorems on the reservations at concrete databases.
use stream_analysis_tools.Base.{
  pos, ◌≡◌, refl, ◌≢◌, ◌⊎◌, true, false, [], ◌∷◌, none, some, arith, codes, minute, ◌*◌, ◌+◌, ◌<◌,
  ◌≤◌, ◌^◌, ◌-◌, suc, min, ltb, if◌then◌else◌, is_some, ◌↔◌,
}
use stream_analysis_tools.Errors.{ok, err, is_ok, video_unavailable}
use stream_analysis_tools.Reservations.Claims.{claim_due-exclusive}
use stream_analysis_tools.Reservations.Exhausted.{Failed, failing_runs, failing_runs-Failed}
use stream_analysis_tools.Reservations.Fencing.{
  Outcome, gave_error, synced, write_outcome, outcome-Refused, outcome_once,
}
use stream_analysis_tools.Reservations.Invariant.Defs.{Valid}
use stream_analysis_tools.Reservations.Machine.{rank, transition_forward, can_cancel-transition}
use stream_analysis_tools.Reservations.Model.{
  ClaimedReservation, scheduled, monitoring, collecting, waiting_for_archive, live, canceled,
  broadcast_started, cancel, transition, transitions, can_cancel, state_eq,
}
use stream_analysis_tools.Reservations.Repository.Leases.{claim_due, owns, is_due, claimed_row}
use stream_analysis_tools.Reservations.Repository.Outcomes.{record_failure, failure_of}
use stream_analysis_tools.Reservations.Repository.Guarded.{Supply, logged}
use stream_analysis_tools.Reservations.Monitor.{Provider}
use stream_analysis_tools.Reservations.Repository.Rows.{
  scan_claimed_reservation, update_reservations,
}
use stream_analysis_tools.Reservations.Schedule.{state_from_metadata, bounded_backoff, next_check}
use stream_analysis_tools.Reservations.Schedule.Backoff.{bounded_backoff-min}
use stream_analysis_tools.Reservations.Schedule.NextCheck.{
  next_check_bounds, next_check-scheduled_in_time,
}
use stream_analysis_tools.Reservations.Schedule.Observation.{
  observed_state, observed_reason, observed_event, state_from_metadata-total,
  observed_state-collecting,
}
use stream_analysis_tools.Reservations.System.{
  System, creates, claims_due, here, next, world, claimed_by, empty,
}
use stream_analysis_tools.Reservations.System.Reach.{reach-Valid}
use stream_analysis_tools.Sql.Rows.{ReservationRow, Database}
use stream_analysis_tools.Sql.Session.{World, transact, statement}
use stream_analysis_tools.Sql.Table.{count, first_by, is_distinct, update}
use stream_analysis_tools.Streams.Model.{Metadata, LifecycleStatus}
use stream_analysis_tools.Streams.Examples.{read_canonical, as_it_is, shared_link}
use stream_analysis_tools.Streams.Parse.{parse_youtube_url}
use stream_analysis_tools.Reservations.Service

abbrev reserved : System
reserved = record empty {
  db =
      (Service.create (parse_youtube_url some read_canonical as_it_is) 7 100 shared_link
        (world empty [])).1.db;
}

abbrev leased : System
leased = record {
  db = (claim_due "worker-1" 200 (pos 60) (world reserved [])).1.db;
  claims = claimed_by (claim_due "worker-1" 200 (pos 60) (world reserved [])).0 reserved.claims;
}

reach-Valid_example : Valid leased.db
reach-Valid_example = reach-Valid {t = leased} (
    next (next here (creates some read_canonical as_it_is 7 shared_link 100 []))
      (claims_due "worker-1" 200 (pos 60) []))

abbrev reserved_row : ReservationRow
reserved_row = record {
  id = 7;
  youtube_video_id = codes "dQw4w9WgXcQ";
  source_url = codes "https://www.youtube.com/watch?v=dQw4w9WgXcQ";
  state = scheduled;
  stream_id = none;
  collection_job_id = none;
  scheduled_start_at = none;
  actual_start_at = none;
  actual_end_at = none;
  next_check_at = 100;
  last_checked_at = none;
  monitor_attempt = 0;
  last_error_code = none;
  last_error_message = none;
  last_error_retryable = none;
  worker_id = none;
  heartbeat_at = none;
  lease_expires_at = none;
  revision = 0;
  canceled_at = none;
  completed_at = none;
  failed_at = none;
  created_at = 100;
  updated_at = 100;
}

abbrev leased_row : ReservationRow
leased_row = record reserved_row {
  worker_id = some "worker-1";
  heartbeat_at = some 200;
  lease_expires_at = some 260;
  revision = 1;
}

abbrev holding : ReservationRow → World Database
holding r = record {
  db = record { reservations = r ∷ []; transitions = []; jobs = []; streams = []; messages = [] };
  faults = [];
}

abbrev claim : ClaimedReservation
claim = scan_claimed_reservation leased_row

abbrev no_answer : Outcome
no_answer =
    gave_error "YOUTUBE_TEMPORARILY_UNAVAILABLE" "YouTube metadata is temporarily unavailable." true

outcome_once_example :
    let v = record (write_outcome no_answer claim 210 (holding leased_row)).1 {
      faults = false ∷ [];
    } in
    (is_ok (write_outcome synced claim 220 v).0 ≡ false)
    × ((write_outcome synced claim 220 v).1.db ≡ v.db)
unfolding record_failure transact update_reservations logged count owns scan_claimed_reservation
    state_eq failure_of is_distinct update
outcome_once_example =
    outcome_once no_answer synced claim 210 220 (holding leased_row) (false ∷ []) (omega arith) refl

outcome-Refused_example :
    (is_ok (write_outcome no_answer claim 300 (holding leased_row)).0 ≡ false)
    × ((write_outcome no_answer claim 300 (holding leased_row)).1.db ≡ (holding leased_row).db)
unfolding owns scan_claimed_reservation
outcome-Refused_example = outcome-Refused claim 300 no_answer (holding leased_row) (refl, tt)

claim_due-exclusive_example :
    let v = record (claim_due "worker-1" 200 (pos 60) (holding reserved_row)).1 { faults = [] } in
    (count (owns claim 230) v.db.reservations ≡ 1)
    × ((claim_due "worker-2" 230 (pos 60) v).0 ≡ ok (some claim) → claim.id ≢ claim.id)
unfolding claim_due statement first_by is_due claimed_row scan_claimed_reservation
claim_due-exclusive_example =
    claim_due-exclusive "worker-1" "worker-2" 200 230 (pos 60) (pos 60) (holding reserved_row) []
      claim claim (tt, tt) (omega arith) refl

abbrev archived : Metadata
archived = record {
  youtube_video_id = codes "dQw4w9WgXcQ";
  canonical_url = codes "https://www.youtube.com/watch?v=dQw4w9WgXcQ";
  title = codes "A stream";
  channel_id = codes "UC1";
  channel_title = codes "A channel";
  thumbnail_url = none;
  scheduled_start_at = none;
  actual_start_at = some 100;
  actual_end_at = some 900;
  duration = some (pos 800);
  lifecycle_status = LifecycleStatus.ended;
  metadata_fetched_at = 1000;
}

state_from_metadata-total_example :
    (state_from_metadata waiting_for_archive archived
      ≡ ok (
        observed_state waiting_for_archive archived,
        observed_reason waiting_for_archive archived,
      ))
    × ((observed_state waiting_for_archive archived ≡ waiting_for_archive)
        ⊎ (transition waiting_for_archive
              (observed_event waiting_for_archive archived.lifecycle_status)
            ≡ ok (observed_state waiting_for_archive archived)))
state_from_metadata-total_example = state_from_metadata-total waiting_for_archive archived

observed_state-collecting_example : (observed_state waiting_for_archive archived ≡ collecting) ↔ (
    (waiting_for_archive ≡ waiting_for_archive)
    × (archived.lifecycle_status ≡ LifecycleStatus.ended)
    × (is_some archived.duration ≡ true))
observed_state-collecting_example =
    observed_state-collecting waiting_for_archive archived (λ e. ground arith)

transition_forward_example : (monitoring ≡ live) ⊎ (rank monitoring < rank live)
unfolding transition transitions
transition_forward_example = transition_forward monitoring live broadcast_started refl

can_cancel-transition_example : (can_cancel live ≡ true) ↔ (transition live cancel ≡ ok canceled)
can_cancel-transition_example = can_cancel-transition live

bounded_backoff-min_example :
    bounded_backoff 3 minute (15 * minute * 2)
    ≡ min (minute * 2 ^ ((if ltb 3 1 then 1 else 3) - 1)) (15 * minute * 2)
bounded_backoff-min_example = bounded_backoff-min 3 minute (15 * minute) (omega arith)

next_check_bounds_example :
    (1000 < next_check waiting_for_archive none 4 1000)
    × (next_check waiting_for_archive none 4 1000 ≤ 1000 + 30 * minute)
next_check_bounds_example = next_check_bounds waiting_for_archive none 4 1000

next_check-scheduled_in_time_example :
    (next_check scheduled (some (60 * minute)) 1 minute ≡ minute + minute)
      × (60 * minute ≤ minute + 15 * minute)
    ⊎ (next_check scheduled (some (60 * minute)) 1 minute + 15 * minute ≤ 60 * minute)
      × (minute + 15 * minute < 60 * minute)
next_check-scheduled_in_time_example = next_check-scheduled_in_time (60 * minute) minute 1

abbrev deleted_video : Provider
deleted_video = some (λ id. err video_unavailable)

abbrev next_ids : Supply
next_ids = record { stream_id = 40; job_id = 41; now = 200 }

failing_runs-Failed_example : Failed (
    failing_runs next_ids 59 (suc (4 - reserved_row.monitor_attempt)) 200 (holding reserved_row).db)
unfolding is_due state_eq
failing_runs-Failed_example =
    failing_runs-Failed next_ids 59 200 reserved_row (holding reserved_row).db refl refl refl
