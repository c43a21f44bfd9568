-- ===== src/Reservations/Schedule.antt =====
-- What a check of YouTube means for a reservation, and when the next check is due: `stateFromMetadata`,
-- `nextCheck` and `boundedBackoff` of apps/api/internal/reservations/repository.go.

pub mod Backoff
pub mod NextCheck
pub mod Observation
use stream_analysis_tools.Base.{
  ℕ, zero, suc, ◌+◌, ◌-◌, ◌*◌, ◌/◌, Bool, true, false, ◌||◌, Option, none, some, String, Time, ltb,
  leb, minute, if◌then◌else◌,
}
use stream_analysis_tools.Errors.{Result, ok, err, ◌>>=◌}
use stream_analysis_tools.Reservations.Model.{
  State, Event, state_eq, transition, scheduled, monitoring, live, waiting_for_archive, collecting,
}
use stream_analysis_tools.Streams.Model.{LifecycleStatus, Metadata}

-- `next, err := Transition(current, event); return next, reason, err`
follow : State → Event → String → Result (State × String)
follow current event reason = do next ← transition current event; ok (next, reason)

unfoldable pub state_from_metadata : State → Metadata → Result (State × String)
unfolding follow state_eq transition
state_from_metadata current metadata = elim metadata.lifecycle_status [
  | LifecycleStatus.scheduled ↦
      if state_eq current scheduled || state_eq current monitoring
      then ok (current, "broadcast_scheduled")
      else ok (current, "observation_unchanged")
  | LifecycleStatus.live ↦
      if state_eq current scheduled || state_eq current monitoring
      then follow current Event.broadcast_started "broadcast_started"
      else ok (current, "observation_unchanged")
  | LifecycleStatus.ended ↦
      if state_eq current waiting_for_archive
      then elim metadata.duration [
        | none ↦ ok (current, "archive_processing")
        | some _ ↦ follow current Event.archive_ready "archive_ready"
      ]
      else if state_eq current scheduled || state_eq current monitoring || state_eq current live
      then follow current Event.broadcast_ended "broadcast_ended"
      else ok (current, "observation_unchanged")
  | _ ↦
      if state_eq current scheduled
      then follow current Event.monitor "broadcast_unknown"
      else ok (current, "observation_unchanged")
]

-- The loop `for range attempt - 1`, by the rounds that are left.
backoff_loop : ℕ → ℕ → ℕ → ℕ
backoff_loop zero delay maximum = delay
backoff_loop (suc rounds) delay maximum =
    let rest = backoff_loop rounds (delay * 2) maximum in
    if leb (maximum / 2) delay then maximum else rest

unfoldable pub bounded_backoff : ℕ → ℕ → ℕ → ℕ
unfolding backoff_loop
bounded_backoff attempt initial maximum =
    backoff_loop ((if ltb attempt 1 then 1 else attempt) - 1) initial maximum

-- `scheduledStart.Add(-15 * time.Minute)` is reached only where the start is later than that.
next_check_scheduled : Option Time → Time → Time
next_check_scheduled none checked_at = checked_at + 15 * minute
next_check_scheduled (some start) checked_at =
    if leb start (checked_at + 15 * minute)
    then checked_at + minute
    else if ltb (start - 15 * minute) (checked_at + 15 * minute)
    then start - 15 * minute
    else checked_at + 15 * minute

unfoldable pub next_check : State → Option Time → ℕ → Time → Time
unfolding next_check_scheduled bounded_backoff
next_check scheduled start attempt checked_at = next_check_scheduled start checked_at
next_check live start attempt checked_at = checked_at + 2 * minute
next_check waiting_for_archive start attempt checked_at =
    checked_at + bounded_backoff attempt (2 * minute) (30 * minute)
next_check collecting start attempt checked_at = checked_at + minute
next_check _ start attempt checked_at = checked_at + minute
