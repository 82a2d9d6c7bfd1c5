-- ===== src/Agent/Loop/Orderly.antt =====
-- Streams that are read to their end, and what a stream leaves of fatal errors and tool calls.
use workhorse_agent.Prelude.{
  ◌≡◌, refl, Bool, true, false, ◌||◌, ◌&&◌, not, List, [], ◌∷◌, none, some, any, arith, is_some,
}
use workhorse_agent.Provider.Message.{
  ProviderEvent, text_delta, tool_use_event, usage, stop, error, reasoning_start, reasoning_delta,
  reasoning_end,
}
use workhorse_agent.Agent.Loop.{Pass, Cut, clear, cancelled, panicked, Reply, failed, streams}
use workhorse_agent.Agent.Loop.Stream.{Draft, consume, consume_all}
use workhorse_agent.Agent.Loop.Batch.{}
use workhorse_agent.Agent.Loop.Passes.{}
use workhorse_agent.Agent.Loop.Turn.{}
use workhorse_agent.Agent.Loop.Owed.{}
use workhorse_agent.Agent.Loop.Drafts.{}

abbrev is_tool_use : ProviderEvent → Bool
is_tool_use (tool_use_event (some t)) = true
is_tool_use _ = false

abbrev is_fatal : ProviderEvent → Bool
is_fatal (error (some e)) = true
is_fatal _ = false

unfoldable pub has_tool_use : List ProviderEvent → Bool
has_tool_use evs = any is_tool_use evs

unfoldable pub has_fatal : List ProviderEvent → Bool
has_fatal evs = any is_fatal evs

abbrev pub is_clear : Cut → Bool
is_clear clear = true
is_clear cancelled = false
is_clear panicked = false

-- A stream that is read to its end and does not fail, or that asks for no tool.
unfoldable pub orderly_reply : Cut → Reply → Bool
orderly_reply cut (failed e) = true
orderly_reply cut (streams evs) = (is_clear cut && not (has_fatal evs)) || not (has_tool_use evs)

abbrev pub Orderly : Pass → Type 0
Orderly p = orderly_reply p.stream p.reply ≡ true

pub consume_all-fatal :
    (d : Draft) (evs : List ProviderEvent)
    → is_some (consume_all d evs).fatal ≡ (is_some d.fatal || has_fatal evs)
unfolding consume_all consume has_fatal any
consume_all-fatal d [] = ground arith
consume_all-fatal d (text_delta t ∷ evs) = consume_all-fatal (consume d (text_delta t)) evs
consume_all-fatal d (tool_use_event none ∷ evs) = consume_all-fatal d evs
consume_all-fatal d (tool_use_event (some t) ∷ evs) =
    consume_all-fatal (consume d (tool_use_event (some t))) evs
consume_all-fatal d (usage i o ∷ evs) = consume_all-fatal d evs
consume_all-fatal d (stop r ∷ evs) = consume_all-fatal (consume d (stop r)) evs
consume_all-fatal d (error none ∷ evs) = consume_all-fatal d evs
consume_all-fatal d (error (some e) ∷ evs) =
    ground (arith, consume_all-fatal (consume d (error (some e))) evs)
consume_all-fatal d (reasoning_start i k ∷ evs) = consume_all-fatal d evs
consume_all-fatal d (reasoning_delta i t ∷ evs) = consume_all-fatal d evs
consume_all-fatal d (reasoning_end i none ∷ evs) = consume_all-fatal d evs
consume_all-fatal d (reasoning_end i (some b) ∷ evs) =
    consume_all-fatal (consume d (reasoning_end i (some b))) evs

pub consume_all-no_calls :
    (d : Draft) (evs : List ProviderEvent)
    → has_tool_use evs ≡ false
    → (consume_all d evs).tool_calls ≡ d.tool_calls
unfolding consume_all consume has_tool_use any
consume_all-no_calls d [] h = refl
consume_all-no_calls d (text_delta t ∷ evs) h =
    consume_all-no_calls (consume d (text_delta t)) evs h
consume_all-no_calls d (tool_use_event none ∷ evs) h = consume_all-no_calls d evs h
consume_all-no_calls d (tool_use_event (some t) ∷ evs) h = ground (arith, h)
consume_all-no_calls d (usage i o ∷ evs) h = consume_all-no_calls d evs h
consume_all-no_calls d (stop r ∷ evs) h = consume_all-no_calls (consume d (stop r)) evs h
consume_all-no_calls d (error none ∷ evs) h = consume_all-no_calls d evs h
consume_all-no_calls d (error (some e) ∷ evs) h =
    consume_all-no_calls (consume d (error (some e))) evs h
consume_all-no_calls d (reasoning_start i k ∷ evs) h = consume_all-no_calls d evs h
consume_all-no_calls d (reasoning_delta i t ∷ evs) h = consume_all-no_calls d evs h
consume_all-no_calls d (reasoning_end i none ∷ evs) h = consume_all-no_calls d evs h
consume_all-no_calls d (reasoning_end i (some b) ∷ evs) h =
    consume_all-no_calls (consume d (reasoning_end i (some b))) evs h
