-- ===== src/Reservations/Schedule/Observation.antt =====
-- What `stateFromMetadata` can answer.
use stream_analysis_tools.Base.{◌≡◌, ◌≢◌, ◌↔◌, ◌⊎◌, true, is_some, arith, String}
use stream_analysis_tools.Errors.{ok, err}
use stream_analysis_tools.Reservations.Model.{
  State, Event, transitions, transition, can_cancel, waiting_for_archive, collecting,
}
use stream_analysis_tools.Reservations.Schedule.{state_from_metadata}
use stream_analysis_tools.Streams.Model.{LifecycleStatus, Metadata}

-- The event that YouTube's answer stands for, if it stands for any.
abbrev pub observed_event : State → LifecycleStatus → Event
observed_event s LifecycleStatus.live = Event.broadcast_started
observed_event waiting_for_archive LifecycleStatus.ended = Event.archive_ready
observed_event s LifecycleStatus.ended = Event.broadcast_ended
observed_event s _ = Event.monitor

-- The state and the reason that are answered, without the error that never comes.
unfoldable pub observed_state : State → Metadata → State
observed_state s m = elim (state_from_metadata s m) [ ok (t, _) ↦ t | err _ ↦ s ]

unfoldable pub observed_reason : State → Metadata → String
observed_reason s m = elim (state_from_metadata s m) [ ok (_, r) ↦ r | err _ ↦ "" ]

-- `stateFromMetadata` never fails: it answers with the current state, or with the state to which
-- the transition table leads by the event that the lifecycle status stands for.
pub state_from_metadata-total :
    (s : State) (m : Metadata)
    → (state_from_metadata s m ≡ ok (observed_state s m, observed_reason s m))
      × ((observed_state s m ≡ s)
          ⊎ (transition s (observed_event s m.lifecycle_status) ≡ ok (observed_state s m)))
unfolding state_from_metadata observed_state observed_reason transitions
state_from_metadata-total s m = ground arith

-- Collection starts in one case only: the reservation waits for the archive, the stream has ended,
-- and YouTube states its duration. (A reservation that collects already stays so.)
pub observed_state-collecting :
    (s : State) (m : Metadata)
    → s ≢ collecting
    → (observed_state s m ≡ collecting) ↔ (
        (s ≡ waiting_for_archive)
        × (m.lifecycle_status ≡ LifecycleStatus.ended)
        × (is_some m.duration ≡ true))
unfolding state_from_metadata observed_state transitions
observed_state-collecting s m h = ground arith

-- An ended stream is what leads to the wait for its archive.
pub observed_state-waiting :
    (s : State) (m : Metadata)
    → observed_state s m ≡ waiting_for_archive
    → (s ≡ waiting_for_archive) ⊎ (m.lifecycle_status ≡ LifecycleStatus.ended)
unfolding state_from_metadata observed_state transitions
observed_state-waiting s m h = ground arith

-- From an active state an observation leads to an active state: none fails, completes or cancels.
pub observed_state-active :
    (s : State) (m : Metadata)
    → can_cancel s ≡ true
    → (can_cancel (observed_state s m) ≡ true) ⊎ (observed_state s m ≡ collecting)
unfolding state_from_metadata observed_state transitions can_cancel
observed_state-active s m h = ground arith
