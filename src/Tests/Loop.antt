-- ===== src/Tests/Loop.antt =====
-- A turn that runs a tool and ends, and turns that are cut off; a history that is compacted.
use workhorse_agent.Prelude.{
  ℕ, ◌≡◌, refl, true, false, none, some, List, [], ◌∷◌, ◌++◌, any, length, drop, ◌-◌, ◌≤◌, arith,
}
use workhorse_agent.Tools.Registry.{returned, Tool}
use workhorse_agent.Provider.Message.{
  ContentBlock, text, tool_use, tool_result, Message, user, system, ProviderEvent, text_delta,
  tool_use_event, stop, error,
}
use workhorse_agent.Provider.Pairing.{Paired, Follows, has}
use workhorse_agent.Session.State.{idle}
use workhorse_agent.Session.History.{Session}
use workhorse_agent.Permission.Rows.{allow_once}
use workhorse_agent.Permission.Rules.{Manager}
use workhorse_agent.Agent.Compaction.{
  Compactor, compacted, compact_with_keep, preserved, errors_of, kept_count, new_history, summarise,
  collect,
}
use workhorse_agent.Agent.Compaction.Preserved.{compact_with_keep-kept, compact_with_keep-unpaired}
use workhorse_agent.Agent.Loop.{Loop, World, Pass, clear, cancelled, streams}
use workhorse_agent.Agent.Loop.Turn.{run_turn}
use workhorse_agent.Agent.Loop.Orderly.{orderly_reply, has_tool_use, has_fatal}
use workhorse_agent.Agent.Loop.Kept.{run_turn-Paired}
use workhorse_agent.Agent.Loop.Ends.{is_last, last_reply, run_turn-idle}
use workhorse_agent.Agent.Loop.Unpaired.{run_turn-cut_stream, run_turn-failed_stream}

abbrev read : Tool ℕ
read = record {
  name = 1 ∷ [];
  can_run_in_parallel = true;
  default_timeout = 0;
  run = λ input s. returned (some (record { output = s ∷ []; is_error = false; modifier = none }));
}

abbrev loop : Loop ℕ
loop = record {
  session_id = [];
  orchestrator = record {
    registry = (1 ∷ [], read) ∷ [];
    default_timeout = 0;
    per_tool_timeouts = [];
    max_result_bytes = 0;
    ends_clean = λ s. true;
    decimal = λ n. [];
    duration = λ d. [];
  };
  gated = true;
  internal_gated = λ t. false;
  compactor = none;
  over_limit = λ n. false;
  compact_recent_keep = 8;
  interceptor = none;
  parse = λ t. none;
  trim = λ t. t;
  runes = λ t. t;
  text_of = λ t. t;
}

abbrev manager : Manager
manager = record {
  prompt = none;
  dangerous = none;
  timeout = 60;
  default_decision = allow_once;
  session_rules = [];
}

abbrev session : Session
session = record { state = idle; title = []; history = []; pending = [] }

abbrev world : World ℕ
world = record {
  session = session;
  manager = manager;
  store = record { permissions = []; reads = true; writes = true };
  target = 7;
  emitted = [];
}

-- A pass without cuts.
abbrev pass : List ProviderEvent → Pass
pass evs = record {
  head = clear;
  compacting = clear;
  reply = streams evs;
  stream = clear;
  env = λ c. record { rand = none; now = 0 };
  gate = clear;
  stopped = λ c. none;
  tools = clear;
}

abbrev asks : List ProviderEvent
asks = text_delta (5 ∷ []) ∷ tool_use_event (some (9 ∷ [], 1 ∷ [], [])) ∷ stop [] ∷ []

abbrev answers : List ProviderEvent
answers = text_delta (6 ∷ []) ∷ text_delta (7 ∷ []) ∷ stop [] ∷ []

abbrev breaks : List ProviderEvent
breaks =
    tool_use_event (some (9 ∷ [], 1 ∷ [], []))
    ∷ error (some (record { provider = []; status_code = 0; code = []; message = [] }))
    ∷ []

abbrev cut_pass : Pass
cut_pass = record (pass asks) { stream = cancelled }

abbrev late_pass : Pass
late_pass = record (pass asks) { head = cancelled }

run_turn-Paired_example :
    ((run_turn loop (some (3 ∷ [])) [] (pass asks ∷ pass answers ∷ []) false world).session.pending
      ≡ [])
    × Paired
        (run_turn loop
          (some (3 ∷ []))
          []
          (pass asks ∷ pass answers ∷ [])
          false
          world).session.history
unfolding orderly_reply has_fatal has_tool_use any Paired Follows has
run_turn-Paired_example =
    run_turn-Paired loop (some (3 ∷ [])) [] (pass asks ∷ pass answers ∷ []) false world refl
      (refl, (refl, tt)) refl (λ j. refl)

run_turn-idle_example :
    (run_turn loop (some (3 ∷ [])) [] (pass asks ∷ pass answers ∷ []) false world).session.state
    ≡ idle
unfolding any is_last last_reply has_fatal has_tool_use
run_turn-idle_example =
    run_turn-idle loop (some (3 ∷ [])) [] (pass asks ∷ pass answers ∷ []) false world refl refl refl

run_turn-cut_stream_example :
    ¬ Paired (run_turn loop (some (3 ∷ [])) [] (cut_pass ∷ []) false world).session.history
unfolding Paired Follows has_tool_use any
run_turn-cut_stream_example =
    run_turn-cut_stream loop (3 ∷ []) [] cut_pass [] false world asks refl refl refl (λ j. refl)
      refl refl refl refl

run_turn-failed_stream_example :
    Paired (run_turn loop (some (3 ∷ [])) [] (pass breaks ∷ []) false world).session.history
    × ¬ Paired
        (run_turn loop
          (some (4 ∷ []))
          []
          (late_pass ∷ [])
          false
          (run_turn loop (some (3 ∷ [])) [] (pass breaks ∷ []) false world)).session.history
unfolding Paired Follows has_tool_use has_fatal any
run_turn-failed_stream_example =
    run_turn-failed_stream loop (3 ∷ []) (4 ∷ []) [] [] (pass breaks) late_pass [] [] false world
      breaks refl refl refl (λ j. refl) refl refl refl refl refl refl

abbrev said : ContentBlock → Message
said b = record { role = user; content = b ∷ []; stop_reason = [] }

abbrev compactor : Compactor
compactor = record {
  stream = λ ms. some (text_delta (8 ∷ []) ∷ []);
  trim = λ t. t;
  recent_keep = 1;
}

abbrev long : List Message
long =
    said (text (1 ∷ []))
    ∷ said (tool_use (9 ∷ []) (1 ∷ []) [])
    ∷ said (tool_result (9 ∷ []) [] true)
    ∷ said (text (2 ∷ []))
    ∷ []

abbrev shortened : List Message
shortened =
    record { role = system; content = text (8 ∷ []) ∷ []; stop_reason = [] }
    ∷ said (tool_result (9 ∷ []) [] true)
    ∷ said (text (2 ∷ []))
    ∷ []

compacts : compact_with_keep compactor long 1 ≡ compacted shortened
unfolding compact_with_keep kept_count summarise collect new_history preserved errors_of
compacts = refl

compact_with_keep-kept_example :
    (preserved shortened ≡ preserved long)
    × ((front : List Message) × (shortened ≡ front ++ drop (4 - kept_count 1) long)
        × (length front ≤ 2))
    × (3 ≤ 4)
compact_with_keep-kept_example = compact_with_keep-kept compactor long 1 shortened compacts

compact_with_keep-unpaired_example : ¬ Paired shortened
unfolding preserved errors_of kept_count
compact_with_keep-unpaired_example =
    compact_with_keep-unpaired compactor long 1 shortened compacts (λ e. ground (arith, e))
