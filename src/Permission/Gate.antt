-- ===== src/Permission/Gate.antt =====
-- checkPermissions and extractResource of internal/agent/loop.go: which of a turn's tool calls go
-- on to the orchestrator. The loop's fields are arguments.
pub mod Audit
use workhorse_agent.Prelude.{
  Bool, true, false, ◌&&◌, ◌||◌, not, List, [], ◌∷◌, ◌++◌, Option, none, some, Text, is_empty,
  codes, Dict, lookup, if◌then◌else◌, is_some,
}
use workhorse_agent.Permission.Rows.{
  Decision, deny, deny_permanent, Store, allow_once, allow_session, allow_permanent, other,
}
use workhorse_agent.Permission.Rules.{Manager, Outcome, Source, Env, CheckInput}
use workhorse_agent.Permission.Manager.{check}
use workhorse_agent.Agent.Orchestrator.{ToolCall}
use workhorse_agent.Session.State.{State, thinking, await_perm, transition, same_state}

unfoldable pub resource_keys : List Text
unfolding codes
resource_keys =
    codes "path" ∷ codes "file_path" ∷ codes "command" ∷ codes "pattern" ∷ codes "glob" ∷ []

-- The value of the first key that holds a string.
unfoldable pub first_string : List Text → Dict (Option Text) → Text
first_string [] m = []
first_string (k ∷ ks) m = elim (lookup k m) [
  | none ↦ first_string ks m
  | some v ↦ elim v [ none ↦ first_string ks m | some s ↦ s ]
]

-- The input's JSON object, where it is one; a field of it that is no string is `none`.
unfoldable pub extract_resource : Option (Dict (Option Text)) → Text
unfolding first_string resource_keys
extract_resource none = []
extract_resource (some m) = first_string resource_keys m

-- The permission_resolved event.
pub record Resolved : Type 0 where
  pub request_id : Text
  pub tool : Text
  pub decision : Decision
  pub source : Source

-- What the calls so far have come to.
pub record Gate : Type 0 where
  pub manager : Manager
  pub store : Store
  pub state : State
  pub await_entered : Bool
  pub cleared : List ToolCall
  pub denied : List ToolCall
  pub events : List Resolved

abbrev pub is_denial : Decision → Bool
is_denial deny = true
is_denial deny_permanent = true
is_denial allow_once = false
is_denial allow_session = false
is_denial allow_permanent = false
is_denial (other s) = false

-- A persist failure after an allow answer is reported as a denial.
unfoldable pub event_decision : Outcome → Decision
event_decision o = if is_some o.error && not (is_denial o.decision) then deny else o.decision

abbrev pub is_refused : Outcome → Bool
is_refused o = is_some o.error || is_denial o.decision

-- The move to AwaitPerm before the first check of the turn.
unfoldable pub enter_await : Gate → Gate
enter_await g =
    if not g.await_entered && same_state g.state thinking
    then elim (transition g.state thinking await_perm) [
      | none ↦ g
      | some s ↦ record g { state = s; await_entered = true }
    ]
    else g

unfoldable pub resolve : Gate → ToolCall → Outcome × Manager × Store → Gate
unfolding event_decision
resolve g c (o, m, s) = record g {
  manager = m;
  store = s;
  events =
      g.events
      ++ (record {
        request_id = c.id;
        tool = c.name;
        decision = event_decision o;
        source = o.source;
      })
        ∷ [];
  cleared = if is_refused o then g.cleared else g.cleared ++ c ∷ [];
  denied = if is_refused o then g.denied ++ c ∷ [] else g.denied;
}

-- `parse` is json.Unmarshal of a call's input.
module _ (parse : Text → Option (Dict (Option Text))) (session_id : Text)
    (internal_gated : Text → Bool) (env : ToolCall → Env) where
  abbrev pub check_input : ToolCall → CheckInput
  check_input c = record {
    session_id = session_id;
    request_id = c.id;
    tool = c.name;
    resource = extract_resource (parse c.input);
  }

  unfoldable pub check_call : Gate → ToolCall → Gate
  unfolding enter_await resolve
  check_call g c =
      if internal_gated c.name
      then record g { cleared = g.cleared ++ c ∷ [] }
      else resolve (enter_await g) c (check g.manager g.store (env c) (check_input c))

  unfoldable pub check_calls : Gate → List ToolCall → Gate
  unfolding check_call
  check_calls g [] = g
  check_calls g (c ∷ cs) = check_calls (check_call g c) cs
