-- ===== src/Session/State/Reach.antt =====
-- What the transitions can and cannot do.
use workhorse_agent.Prelude.{◌≡◌, ◌≢◌, ◌↔◌, true, none, some, arith}
use workhorse_agent.Session.State.{
  State, idle, cancelled, allowed_transitions, transition, force_transition, same_state, status,
  status_running,
}

same_state_iff : (a b : State) → (same_state a b ≡ true) ↔ (a ≡ b)
unfolding same_state
same_state_iff a b = ground arith

-- Transition succeeds exactly from the state that it names and along an edge of the table, and
-- then the new state is the one asked for; otherwise it is refused.
pub transition_iff :
    (state from to next : State)
    → (transition state from to ≡ some next)
      ↔ ((state ≡ from) × (allowed_transitions from to ≡ true) × (next ≡ to))
unfolding transition
transition_iff state from to next = ground (arith, same_state_iff state from)

-- Of two goroutines that try to leave the same state only one succeeds: after a transition out of
-- `from`, another one that names `from` is refused, wherever it wants to go.
pub transition_once :
    (state from to next other : State)
    → transition state from to ≡ some next
    → transition next from other ≡ none
unfolding transition same_state allowed_transitions
transition_once state from to next other h = ground arith

-- Every run can be cut short: from any state but cancelled the forced move to cancelled is taken,
-- and from cancelled the session goes back to idle and nowhere else.
pub force_transition-cancel :
    (s t : State)
    → s ≢ cancelled
    → t ≢ idle
    → (force_transition s cancelled ≡ some cancelled)
      × (force_transition cancelled idle ≡ some idle)
      × (force_transition cancelled t ≡ none)
unfolding force_transition
force_transition-cancel s t h k = (ground arith, ground arith, ground arith)

-- A session whose status is running can always be brought back to idle by one transition.
pub transition-idle : (s : State) → status s ≡ status_running → transition s s idle ≡ some idle
unfolding transition same_state status
transition-idle s h = ground arith
