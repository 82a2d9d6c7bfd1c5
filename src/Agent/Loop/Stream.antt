-- ===== src/Agent/Loop/Stream.antt =====
-- consumeProviderStream of internal/agent/loop.go.
use workhorse_agent.Prelude.{
  ℕ, ◌+◌, Bool, true, false, not, ◌||◌, List, [], ◌∷◌, ◌++◌, Option, none, some, Text, length, ltb,
  if◌then◌else◌,
}
use workhorse_agent.Provider.Message.{
  ContentBlock, text, tool_use, tool_result, reasoning, assistant, ProviderError, ProviderEvent,
  text_delta, tool_use_event, usage, stop, error, reasoning_start, reasoning_delta, reasoning_end,
}
use workhorse_agent.Session.History.{Session, append_message, mark_tool_use_pending}
use workhorse_agent.Agent.Orchestrator.{ToolCall}
use workhorse_agent.Agent.Loop.{Event, assistant_text_delta, assistant_text_done}

-- The variables of the function, the session and the events emitted.
pub record Draft : Type 0 where
  pub blocks : List ContentBlock
  pub tool_calls : List ToolCall
  pub text_len : ℕ
  pub stop_reason : Text
  pub fatal : Option ProviderError
  pub session : Session
  pub emitted : List Event

abbrev pub empty_draft : Session → Draft
empty_draft s = record {
  blocks = [];
  tool_calls = [];
  text_len = 0;
  stop_reason = [];
  fatal = none;
  session = s;
  emitted = [];
}

-- A delta goes on with the last block if that is text.
unfoldable pub append_text : Text → List ContentBlock → List ContentBlock
append_text delta [] = text delta ∷ []
append_text delta (text t ∷ []) = text (t ++ delta) ∷ []
append_text delta (text t ∷ c ∷ bs) = text t ∷ append_text delta (c ∷ bs)
append_text delta (tool_use id name input ∷ bs) = tool_use id name input ∷ append_text delta bs
append_text delta (tool_result id output e ∷ bs) = tool_result id output e ∷ append_text delta bs
append_text delta (reasoning r ∷ bs) = reasoning r ∷ append_text delta bs

unfoldable pub consume : Draft → ProviderEvent → Draft
consume d (text_delta delta) = record d {
  blocks = append_text delta d.blocks;
  text_len = d.text_len + length delta;
  emitted = d.emitted ++ assistant_text_delta delta ∷ [];
}
consume d (reasoning_start i kind) = d
consume d (reasoning_delta i delta) = d
consume d (reasoning_end i none) = d
consume d (reasoning_end i (some r)) = record d { blocks = d.blocks ++ reasoning r ∷ [] }
consume d (tool_use_event none) = d
consume d (tool_use_event (some (id, name, input))) = record d {
  tool_calls = d.tool_calls ++ (record { id = id; name = name; input = input }) ∷ [];
  blocks = d.blocks ++ tool_use id name input ∷ [];
  session = mark_tool_use_pending d.session (record { id = id; name = name; input = input });
}
consume d (stop reason) = record d { stop_reason = reason }
consume d (error none) = d
consume d (error (some e)) = record d { fatal = some e }
consume d (usage i o) = d

unfoldable pub consume_all : Draft → List ProviderEvent → Draft
consume_all d [] = d
consume_all d (ev ∷ evs) = consume_all (consume d ev) evs

abbrev is_nil {ℓ} : {A : Type ℓ} → List A → Bool
is_nil [] = true
is_nil (x ∷ xs) = false

abbrev pub produced : Draft → Bool
produced d = ltb 0 d.text_len || not (is_nil d.tool_calls)

abbrev pub append_assistant : List ContentBlock → Text → Session → Session
append_assistant [] stop_reason s = s
append_assistant (b ∷ bs) stop_reason s =
    append_message s (record { role = assistant; content = b ∷ bs; stop_reason = stop_reason })

-- The end of the function, where the stream was neither cut off nor failed.
unfoldable pub close_stream : Draft → Draft
close_stream d = record d {
  session = append_assistant d.blocks d.stop_reason d.session;
  emitted =
      if ltb 0 d.text_len || is_nil d.tool_calls
      then d.emitted ++ assistant_text_done d.stop_reason ∷ []
      else d.emitted;
}
