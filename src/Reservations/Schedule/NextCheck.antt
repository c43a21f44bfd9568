-- ===== src/Reservations/Schedule/NextCheck.antt =====
-- When `nextCheck` lets a reservation be looked at again.
use stream_analysis_tools.Base.{ℕ, ◌+◌, ◌*◌, ◌≤◌, ◌<◌, ◌≡◌, ◌⊎◌, some, Option, arith, Time, minute}
use stream_analysis_tools.Reservations.Model.{State, scheduled, waiting_for_archive}
use stream_analysis_tools.Reservations.Schedule.{next_check_scheduled, next_check, bounded_backoff}
use stream_analysis_tools.Reservations.Schedule.Backoff.{bounded_backoff_bounds}

scheduled_bounds :
    (start : Option Time) (checked_at : Time)
    → (checked_at < next_check_scheduled start checked_at)
      × (next_check_scheduled start checked_at ≤ checked_at + 15 * minute)
unfolding next_check_scheduled
scheduled_bounds start checked_at = ground arith

archive_bounds :
    (attempt : ℕ)
    → (2 * minute ≤ bounded_backoff attempt (2 * minute) (30 * minute))
      × (bounded_backoff attempt (2 * minute) (30 * minute) ≤ 30 * minute)
archive_bounds attempt = bounded_backoff_bounds attempt (2 * minute) (30 * minute) (omega arith)

-- In every state the next check lies strictly after this one and at most thirty minutes after it.
pub next_check_bounds :
    (state : State) (start : Option Time) (attempt : ℕ) (checked_at : Time)
    → (checked_at < next_check state start attempt checked_at)
      × (next_check state start attempt checked_at ≤ checked_at + 30 * minute)
unfolding next_check
next_check_bounds waiting_for_archive start attempt checked_at =
    ground (arith, archive_bounds attempt)
next_check_bounds scheduled start attempt checked_at =
    ground (arith, scheduled_bounds start checked_at)
next_check_bounds _ start attempt checked_at = omega arith

-- A scheduled reservation with a known start is looked at again within a minute once the start is
-- at most a quarter of an hour away, and before that never later than a quarter of an hour ahead
-- of the start.
pub next_check-scheduled_in_time :
    (start checked_at : Time) (attempt : ℕ)
    → (next_check scheduled (some start) attempt checked_at ≡ checked_at + minute)
        × (start ≤ checked_at + 15 * minute)
      ⊎ (next_check scheduled (some start) attempt checked_at + 15 * minute ≤ start)
        × (checked_at + 15 * minute < start)
unfolding next_check
next_check-scheduled_in_time start checked_at attempt = ground arith
