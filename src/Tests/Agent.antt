-- ===== src/Tests/Agent.antt =====
-- A turn of three calls, retries, and a long output.
use workhorse_agent.Prelude.{
  ℕ, zero, suc, ◌+◌, ◌≡◌, ◌≤◌, ◌<◌, refl, Bool, true, false, none, some, Option, List, [], ◌∷◌,
  ◌++◌, Text, text_eq, map, arith, Dict, lookup, length,
}
use workhorse_agent.Tools.Registry.{returned, Tool, get}
use workhorse_agent.Tools.Truncate.{truncate_output}
use workhorse_agent.Tools.Truncate.Bounds.{truncate_output-bounded}
use workhorse_agent.Agent.Orchestrator.{
  ToolCall, Orchestrator, eligible, run_all, run_one, apply_modifiers,
}
use workhorse_agent.Agent.Orchestrator.Batches.{}
use workhorse_agent.Agent.Orchestrator.Results.{run_all-id, run_all_barrier}
use workhorse_agent.Agent.Retry.{
  Answer, streams, provider_error, Run, live, default_retry_config, stream_with_retry,
}
use workhorse_agent.Agent.Retry.Attempts.{
  retryable_error, stream_with_retry_ends, stream_with_retry_succeeds,
}

-- Read counts the calls that it sees; Bash adds ten to the state.
abbrev read : Tool ℕ
read = record {
  name = 1 ∷ [];
  can_run_in_parallel = true;
  default_timeout = 0;
  run = λ input s. returned (some (record { output = s ∷ []; is_error = false; modifier = none }));
}

abbrev bash : Tool ℕ
bash = record {
  name = 2 ∷ [];
  can_run_in_parallel = false;
  default_timeout = 0;
  run = λ input s.
      returned (some (record { output = []; is_error = false; modifier = some (λ n. n + 10) }));
}

abbrev tools : Dict (Tool ℕ)
tools = (1 ∷ [], read) ∷ (2 ∷ [], bash) ∷ []

abbrev orchestrator : Orchestrator ℕ
orchestrator = record {
  registry = tools;
  default_timeout = 0;
  per_tool_timeouts = [];
  max_result_bytes = 0;
  ends_clean = λ s. true;
  decimal = λ n. [];
  duration = λ d. [];
}

abbrev call : ℕ → ℕ → ToolCall
call id tool = record { id = id ∷ []; name = tool ∷ []; input = [] }

abbrev never : ToolCall → Option Text
never c = none

abbrev turn : List ToolCall
turn = call 100 1 ∷ call 101 1 ∷ call 102 2 ∷ call 103 1 ∷ call 104 7 ∷ []

run_all-id_example : map (λ r. r.id) (run_all never orchestrator turn 0).0 ≡ map (λ c. c.id) turn
run_all-id_example = run_all-id never orchestrator turn 0

run_all_barrier_example :
    let (r1, s1) = run_all never orchestrator (call 100 1 ∷ []) 0 in
    let r2 = run_one orchestrator (call 102 2) s1 in
    let (r3, s3) = run_all never orchestrator (call 103 1 ∷ []) (apply_modifiers (r2 ∷ []) s1) in
    run_all never orchestrator (call 100 1 ∷ call 102 2 ∷ call 103 1 ∷ []) 0 ≡ (r1 ++ (r2 ∷ r3), s3)
unfolding eligible get lookup text_eq
run_all_barrier_example =
    run_all_barrier never orchestrator (call 100 1 ∷ []) (call 103 1 ∷ []) (call 102 2) 0 refl

-- Two rate limits, then a channel.
abbrev flaky : ℕ → Answer ℕ
flaky n = elim n [
  | zero ↦ provider_error [] true 0
  | suc m ↦ elim m [ zero ↦ provider_error [] true 9_000_000_000 | suc k ↦ streams 7 ]
]

abbrev calm : ℕ → Bool
calm n = false

stream_with_retry_ends_example :
    (run : Run ℕ) × (stream_with_retry flaky calm default_retry_config ≡ some run)
    × (length run.retried ≤ 3)
stream_with_retry_ends_example = stream_with_retry_ends flaky calm default_retry_config

flaky_below : (j : ℕ) → j < 2 → retryable_error (flaky j) ≡ true
flaky_below zero h = refl
flaky_below (suc zero) h = refl
flaky_below (suc (suc j)) h = ground arith

stream_with_retry_succeeds_example :
    (run : Run ℕ) × (stream_with_retry flaky calm default_retry_config ≡ some run)
    × (run.outcome ≡ live 7)
    × (length run.retried ≡ 2)
stream_with_retry_succeeds_example =
    stream_with_retry_succeeds flaky calm default_retry_config 2 7 (omega arith) refl flaky_below
      (λ j. refl)

abbrev clean : Text → Bool
clean s = true

abbrev one_digit : ℕ → Text
one_digit n = 48 ∷ []

abbrev zeros : ℕ → Text
zeros zero = []
zeros (suc n) = 0 ∷ zeros n

truncate_output-bounded_example : length (truncate_output clean one_digit 100 (zeros 200)).0 ≤ 100
truncate_output-bounded_example =
    truncate_output-bounded clean one_digit 100 (zeros 200) (λ n h. omega arith) (omega arith)
      (omega arith) (omega arith)
