-- ===== src/Agent/Orchestrator.antt =====
-- internal/agent/orchestrator.go. Durations are nanoseconds.
pub mod Batches
pub mod Results
use workhorse_agent.Prelude.{
  ℕ, ◌*◌, Bool, true, false, not, List, [], ◌∷◌, ◌++◌, Option, none, some, Text, codes, ltb,
  if◌then◌else◌, Dict, lookup,
}
use workhorse_agent.Tools.Registry.{
  Result, Outcome, returned, deadline_exceeded, canceled, failed, panicked, Tool, get,
}
use workhorse_agent.Tools.Truncate.{truncate_output}

pub record ToolCall : Type 0 where
  pub id : Text
  pub name : Text
  pub input : Text

pub record ToolBatch : Type 0 where
  pub parallel : Bool
  pub calls : List ToolCall

pub record ToolCallResult (Target : Type 0) : Type 0 where
  pub id : Text
  pub name : Text
  pub result : Result Target

-- The configuration, and the texts that fmt and the unicode package make.
pub record Orchestrator (Target : Type 0) : Type 0 where
  pub registry : Dict (Tool Target)
  pub default_timeout : ℕ
  pub per_tool_timeouts : Dict ℕ
  pub max_result_bytes : ℕ
  pub ends_clean : Text → Bool
  pub decimal : ℕ → Text
  pub duration : ℕ → Text

unfoldable pub flush_par : List ToolCall → List ToolBatch
flush_par [] = []
flush_par (c ∷ cs) = record { parallel = true; calls = c ∷ cs } ∷ []

abbrev pub serial : ToolCall → ToolBatch
serial c = record { parallel = false; calls = c ∷ [] }

module _ {Target : Type 0} where
  unfoldable pub eligible : Dict (Tool Target) → ToolCall → Bool
  unfolding get
  eligible reg c = elim (get c.name reg) [ none ↦ false | some t ↦ t.can_run_in_parallel ]

  unfoldable pub batch_from : Dict (Tool Target) → List ToolCall → List ToolCall → List ToolBatch
  batch_from reg par [] = flush_par par
  batch_from reg par (c ∷ cs) = elim (eligible reg c) [
    | true ↦ batch_from reg (par ++ c ∷ []) cs
    | false ↦ flush_par par ++ serial c ∷ batch_from reg [] cs
  ]

  unfoldable pub batch_tools : Dict (Tool Target) → List ToolCall → List ToolBatch
  batch_tools reg calls = batch_from reg [] calls

  abbrev error_result : Text → Result Target
  error_result text = record { output = text; is_error = true; modifier = none }

  unfoldable pub configured_timeout : Orchestrator Target → Option ℕ → ℕ
  configured_timeout o (some d) =
      if ltb 0 d
      then d
      else if ltb 0 o.default_timeout
      then o.default_timeout
      else 120 * 1_000_000_000
  configured_timeout o none =
      if ltb 0 o.default_timeout then o.default_timeout else 120 * 1_000_000_000

  unfoldable pub resolve_timeout : Orchestrator Target → Tool Target → ℕ
  resolve_timeout o t =
      if ltb 0 t.default_timeout
      then t.default_timeout
      else configured_timeout o (lookup t.name o.per_tool_timeouts)

  unfoldable pub outcome_result : Orchestrator Target → ℕ → Outcome Target → Result Target
  outcome_result o timeout (returned none) = record {
    output = codes "(no output)";
    is_error = false;
    modifier = none;
  }
  outcome_result o timeout (returned (some r)) = record r {
    output = (truncate_output o.ends_clean o.decimal o.max_result_bytes r.output).0;
  }
  outcome_result o timeout deadline_exceeded =
      error_result (codes "tool execution timed out after " ++ o.duration timeout)
  outcome_result o timeout canceled = error_result (codes "tool canceled")
  outcome_result o timeout (failed text) = error_result text
  outcome_result o timeout (panicked text) = error_result (codes "tool panicked: " ++ text)

  unfoldable pub dispatched :
      Orchestrator Target → ToolCall → Target → Option (Tool Target) → Result Target
  dispatched o c s none = error_result (codes "unknown tool: " ++ c.name)
  dispatched o c s (some t) = outcome_result o (resolve_timeout o t) (t.run c.input s)

  unfoldable pub run_one : Orchestrator Target → ToolCall → Target → ToolCallResult Target
  run_one o c s = record {
    id = c.id;
    name = c.name;
    result = dispatched o c s (get c.name o.registry);
  }

  -- What a call of a parallel batch gets whose context ends before it has a slot.
  unfoldable pub run_slot :
      (ToolCall → Option Text) → Orchestrator Target → ToolCall → Target → ToolCallResult Target
  run_slot stopped o c s = elim (stopped c) [
    | none ↦ run_one o c s
    | some why ↦ record {
      id = c.id;
      name = c.name;
      result = error_result (codes "tool canceled: " ++ why);
    }
  ]

  unfoldable pub run_calls :
      (ToolCall → Target → ToolCallResult Target)
      → Target
      → List ToolCall
      → List (ToolCallResult Target)
  run_calls f s [] = []
  run_calls f s (c ∷ cs) = f c s ∷ run_calls f s cs

  unfoldable pub run_batch :
      (ToolCall → Option Text)
      → Orchestrator Target
      → ToolBatch
      → Target
      → List (ToolCallResult Target)
  run_batch stopped o b s =
      run_calls (if b.parallel then run_slot stopped o else run_one o) s b.calls

  unfoldable pub apply_modifier : Bool → Option (Target → Target) → Target → Target
  apply_modifier true m s = s
  apply_modifier false none s = s
  apply_modifier false (some f) s = f s

  unfoldable pub apply_modifiers : List (ToolCallResult Target) → Target → Target
  apply_modifiers [] s = s
  apply_modifiers (r ∷ rs) s =
      apply_modifiers rs (apply_modifier r.result.is_error r.result.modifier s)

  unfoldable pub run_batches :
      (ToolCall → Option Text)
      → Orchestrator Target
      → List ToolBatch
      → Target
      → List (ToolCallResult Target) × Target
  run_batches stopped o [] s = ([], s)
  run_batches stopped o (b ∷ bs) s =
      let results = run_batch stopped o b s in
      let (rest, last) = run_batches stopped o bs (apply_modifiers results s) in
      (results ++ rest, last)

  unfoldable pub run_all :
      (ToolCall → Option Text)
      → Orchestrator Target
      → List ToolCall
      → Target
      → List (ToolCallResult Target) × Target
  run_all stopped o calls s = run_batches stopped o (batch_tools o.registry calls) s
