-- ===== src/Reservations/Machine.antt =====
-- The transition table of apps/api/internal/reservations/model.go as a state machine.
use stream_analysis_tools.Base.{ℕ, ◌≤◌, ◌<◌, ◌≡◌, ◌↔◌, ◌⊎◌, true, List, [], ◌∷◌, arith}
use stream_analysis_tools.Errors.{ok, err, invalid_transition}
use stream_analysis_tools.Reservations.Model.{
  State, Event, state_eq, can_cancel, transitions, transition, scheduled, monitoring, live,
  waiting_for_archive, collecting, completed, failed, canceled, cancel,
  permanent_monitoring_failure,
}

pub state_eq→eq : (s t : State) → state_eq s t ≡ true → s ≡ t
unfolding state_eq
state_eq→eq s t h = ground arith

pub state_eq_refl : (s : State) → state_eq s s ≡ true
unfolding state_eq
state_eq_refl s = ground arith

pub state_eq_iff : (s t : State) → (state_eq s t ≡ true) ↔ (s ≡ t)
unfolding state_eq
state_eq_iff s t = ground arith

-- How far a reservation has come.
pub rank : State → ℕ
rank scheduled = 0
rank monitoring = 1
rank live = 2
rank waiting_for_archive = 3
rank collecting = 4
rank completed = 5
rank failed = 5
rank canceled = 5

-- A transition that the table allows either stays in its state or moves strictly forward in the
-- order scheduled, monitoring, live, waiting_for_archive, collecting, terminal.
pub transition_forward :
    (from to : State) (e : Event) → transition from e ≡ ok to → (from ≡ to) ⊎ (rank from < rank to)
unfolding transition transitions rank
transition_forward from to e h = ground arith

pub transition-terminal :
    (from : State) (e : Event) → rank from ≡ 5 → transition from e ≡ err invalid_transition
unfolding transition transitions rank
transition-terminal from e h = ground arith

-- `CanCancel` answers yes exactly in the states from which the table leads to canceled by the
-- event cancel, and the table has no other cancel edge.
pub can_cancel-transition :
    (s : State) → (can_cancel s ≡ true) ↔ (transition s cancel ≡ ok canceled)
unfolding can_cancel transition transitions
can_cancel-transition s = ground arith

-- Every state before the terminal ones but collecting can fail; collecting cannot.
pub transition-failed :
    (s : State) → (transition s permanent_monitoring_failure ≡ ok failed) ↔ (can_cancel s ≡ true)
unfolding can_cancel transition transitions
transition-failed s = ground arith

-- The state after a run of events, each refused one leaving it as it is.
pub follow_all : State → List Event → State
follow_all s [] = s
follow_all s (e ∷ es) = follow_all (elim (transition s e) [ ok t ↦ t | err _ ↦ s ]) es

rank-step : (s : State) (e : Event) → rank s ≤ rank (elim (transition s e) [ ok t ↦ t | err _ ↦ s ])
unfolding transition transitions rank
rank-step s e = ground arith

pub rank-follow_all : (s : State) (es : List Event) → rank s ≤ rank (follow_all s es)
unfolding follow_all
rank-follow_all s [] = omega arith
rank-follow_all s (e ∷ es) =
    omega
      (arith, rank-step s e, rank-follow_all (elim (transition s e) [ ok t ↦ t | err _ ↦ s ]) es)
