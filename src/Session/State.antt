-- ===== src/Session/State.antt =====
-- The state machine of internal/session/session.go: `allowedTransitions`, Transition and
-- ForceTransition on the state field. The update stamp is left out.
pub mod Reach
use workhorse_agent.Prelude.{Bool, true, false, Option, none, some, if◌then◌else◌, not}

pub data State : Type 0 where
  idle thinking await_perm executing compacting cancelled : State

-- The edges of the table.
unfoldable pub allowed_transitions : State → State → Bool
allowed_transitions idle thinking = true
allowed_transitions idle compacting = true
allowed_transitions idle cancelled = true
allowed_transitions thinking await_perm = true
allowed_transitions thinking executing = true
allowed_transitions thinking compacting = true
allowed_transitions thinking idle = true
allowed_transitions thinking cancelled = true
allowed_transitions await_perm executing = true
allowed_transitions await_perm thinking = true
allowed_transitions await_perm cancelled = true
allowed_transitions await_perm idle = true
allowed_transitions executing thinking = true
allowed_transitions executing cancelled = true
allowed_transitions executing idle = true
allowed_transitions compacting idle = true
allowed_transitions compacting thinking = true
allowed_transitions compacting cancelled = true
allowed_transitions cancelled idle = true
allowed_transitions _ _ = false

unfoldable pub same_state : State → State → Bool
same_state idle idle = true
same_state thinking thinking = true
same_state await_perm await_perm = true
same_state executing executing = true
same_state compacting compacting = true
same_state cancelled cancelled = true
same_state _ _ = false

-- `none` is ErrInvalidTransition, with the state left alone.
unfoldable pub transition : State → State → State → Option State
unfolding same_state allowed_transitions
transition state from to =
    if not (same_state state from)
    then none
    else if allowed_transitions from to
    then some to
    else none

unfoldable pub force_transition : State → State → Option State
unfolding allowed_transitions
force_transition state to = if allowed_transitions state to then some to else none

pub data Status : Type 0 where
  status_idle status_running : Status

unfoldable pub status : State → Status
status idle = status_idle
status cancelled = status_idle
status _ = status_running
