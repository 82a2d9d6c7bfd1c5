-- ===== src/Agent/Loop/Batch.antt =====
-- runToolBatch of internal/agent/loop.go.
use workhorse_agent.Prelude.{
  Bool, true, false, not, List, [], ◌∷◌, ◌++◌, none, some, Text, codes, map, Dict, lookup, insert,
  if◌then◌else◌,
}
use workhorse_agent.Provider.Message.{ContentBlock, tool_result, user}
use workhorse_agent.Session.State.{thinking, await_perm, executing}
use workhorse_agent.Session.History.{Session, append_message, clear_tool_use_pending}
use workhorse_agent.Permission.Gate.{Gate, Resolved, check_calls}
use workhorse_agent.Permission.Rules.{Env}
use workhorse_agent.Tools.Registry.{Result}
use workhorse_agent.Agent.Orchestrator.{ToolCall, ToolCallResult}
use workhorse_agent.Agent.Loop.{
  Loop, World, Event, tool_call_start, tool_call_done, permission_resolved, move,
}

abbrev resolved_event : Resolved → Event
resolved_event r = permission_resolved r.request_id r.tool r.decision

abbrev pub result_block : Text → Text × Bool → ContentBlock
result_block id (output, is_error) = tool_result id output is_error

unfoldable pub clear_all : List ToolCall → Session → Session
clear_all [] s = s
clear_all (c ∷ cs) s = clear_all cs (clear_tool_use_pending s c.id)

module _ {Target : Type 0} where
  unfoldable pub intercept :
      Loop Target → List ToolCall → List ToolCall × List (ToolCallResult Target)
  intercept l calls = elim l.interceptor [ none ↦ (calls, []) | some f ↦ f calls ]

  unfoldable pub check_permissions :
      Loop Target → (ToolCall → Env) → World Target → List ToolCall → Gate
  check_permissions l env w calls =
      let start : Gate = record {
        manager = w.manager;
        store = w.store;
        state = w.session.state;
        await_entered = false;
        cleared = [];
        denied = [];
        events = [];
      } in
      if l.gated
      then check_calls l.parse l.session_id l.internal_gated env start calls
      else record start { cleared = calls }

  unfoldable pub after_gate : Gate → World Target → World Target
  after_gate g w = record w {
    manager = g.manager;
    store = g.store;
    session = record w.session { state = g.state };
    emitted = w.emitted ++ map resolved_event g.events;
  }

  abbrev pub denied_result : ToolCall → ToolCallResult Target
  denied_result c = record {
    id = c.id;
    name = c.name;
    result = record {
      output = codes "permission denied for " ++ c.name;
      is_error = true;
      modifier = none;
    };
  }

  unfoldable pub add_results :
      Dict (Result Target) → List (ToolCallResult Target) → Dict (Result Target)
  add_results m [] = m
  add_results m (r ∷ rs) = add_results (insert r.id r.result m) rs

  -- resultsByID: a later list wins.
  unfoldable pub results_by_id :
      List (ToolCallResult Target)
      → List ToolCall
      → List (ToolCallResult Target)
      → Dict (Result Target)
  results_by_id results denied intercepted =
      add_results (add_results (add_results [] results) (map denied_result denied)) intercepted

  unfoldable pub output_of : Dict (Result Target) → ToolCall → Text × Bool
  output_of m c = elim (lookup c.id m) [
    | none ↦ (codes "tool execution lost", true)
    | some r ↦ (r.output, r.is_error)
  ]

  abbrev done_event : Dict (Result Target) → ToolCall → Event
  done_event m c = tool_call_done c.id c.name (output_of m c).0 (not (output_of m c).1)

  -- Before the run: the session moves on, and what will run is announced.
  unfoldable pub start_run : Gate → List (ToolCallResult Target) → World Target → World Target
  start_run g intercepted w = record w {
    session = move thinking executing (move await_perm executing w.session);
    emitted =
        w.emitted
        ++ map (λ c. tool_call_start c.id c.name) g.cleared
        ++ map (λ r. tool_call_start r.id r.name) intercepted;
  }

  -- After the run: one result for each call of the model, in its order.
  unfoldable pub finish_run : Dict (Result Target) → List ToolCall → World Target → World Target
  finish_run m calls w = record w {
    session = append_message (clear_all calls w.session) (record {
      role = user;
      content = map (λ c. result_block c.id (output_of m c)) calls;
      stop_reason = [];
    });
    emitted = w.emitted ++ map (done_event m) calls;
  }
