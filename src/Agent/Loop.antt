-- ===== src/Agent/Loop.antt =====
-- internal/agent/loop.go: the loop's fields, and what a turn changes. What the world does in a turn
-- is a script, one entry for each pass of the turn's loop.
pub mod Stream
pub mod Batch
pub mod Passes
pub mod Turn
pub mod Owed
pub mod Drafts
pub mod Settled
pub mod Orderly
pub mod Fits
pub mod PassFits
pub mod Kept
pub mod Ends
pub mod Unasked
pub mod Unpaired
use workhorse_agent.Prelude.{
  ℕ, Bool, true, false, List, [], ◌∷◌, ◌++◌, Option, none, some, Text, Dict, if◌then◌else◌,
}
use workhorse_agent.Provider.Message.{ProviderError, ProviderEvent}
use workhorse_agent.Session.State.{State, transition}
use workhorse_agent.Session.History.{Session}
use workhorse_agent.Permission.Rows.{Store, Decision}
use workhorse_agent.Permission.Rules.{Manager, Env}
use workhorse_agent.Agent.Orchestrator.{ToolCall, ToolCallResult, Orchestrator}
use workhorse_agent.Agent.Compaction.{Compactor}

-- Session.Emit and EmitNow: the events that tell how a turn goes. Reasoning, retry and cancel_timeout
-- events are left out, and so is whether the outbox takes an event.
pub data Event : Type 0 where
  assistant_text_delta : Text → Event
  assistant_text_done : (stop_reason : Text) → Event
  tool_call_start : (id tool : Text) → Event
  permission_resolved : (request_id tool : Text) → Decision → Event
  tool_call_done : (id tool output : Text) → (ok : Bool) → Event
  title_updated : Text → Event
  compaction : (before_messages after_messages : ℕ) → Event
  provider_failed : Option ProviderError → Event
  session_busy internal_panic interrupted : Event

-- The fields, with the functions of other packages that the loop calls: `over_limit` is the
-- comparison with MaxHistoryTokens * AutoCompactRatio, false where one of them is not positive;
-- `parse` is json.Unmarshal of a call's input; `trim`, `runes` and `text_of` are strings.TrimSpace
-- and the two conversions with []rune.
pub record Loop (Target : Type 0) : Type 0 where
  pub session_id : Text
  pub orchestrator : Orchestrator Target
  pub gated : Bool
  pub internal_gated : Text → Bool
  pub compactor : Option Compactor
  pub over_limit : ℕ → Bool
  pub compact_recent_keep : ℕ
  pub interceptor : Option (List ToolCall → List ToolCall × List (ToolCallResult Target))
  pub parse : Text → Option (Dict (Option Text))
  pub trim : Text → Text
  pub runes : Text → List ℕ
  pub text_of : List ℕ → Text

-- `target` is the part of the session that a tool's modifier changes.
pub record World (Target : Type 0) : Type 0 where
  pub session : Session
  pub manager : Manager
  pub store : Store
  pub target : Target
  pub emitted : List Event

-- Whether, by the time a step is over, the turn's context is cancelled, or the step has panicked.
pub data Cut : Type 0 where
  clear cancelled panicked : Cut

-- What streamWithRetry comes back with: an error, with its ProviderError if it has one, or events.
pub data Reply : Type 0 where
  failed : Option ProviderError → Reply
  streams : List ProviderEvent → Reply

-- One pass: the cuts at its head, by the end of its compaction, of its stream, of the permission
-- checks and of the tools, and what the provider, the prompts and the tools' slots answer.
pub record Pass : Type 0 where
  pub head : Cut
  pub compacting : Cut
  pub reply : Reply
  pub stream : Cut
  pub env : ToolCall → Env
  pub gate : Cut
  pub stopped : ToolCall → Option Text
  pub tools : Cut

-- How the goroutine of the turn ends.
pub data End : Type 0 where
  ended cut_off crashed : End

-- `_ = l.Session.Transition(from, to)`
unfoldable pub move : State → State → Session → Session
move from to s = elim (transition s.state from to) [ none ↦ s | some x ↦ record s { state = x } ]

module _ {Target : Type 0} where
  unfoldable pub emit : Event → World Target → World Target
  emit e w = record w { emitted = w.emitted ++ e ∷ [] }

  unfoldable pub with_session : (Session → Session) → World Target → World Target
  with_session f w = record w { session = f w.session }
