-- ===== src/Agent/Loop/Passes.antt =====
-- runTurnLoop of internal/agent/loop.go, a pass at a time, with shouldCompact, compactAndSwap,
-- runCompaction and maybeOverflowRecover. The request that a pass sends is not modelled, and
-- drainOrphanedPending has no place here: its call is under `res.terminate` with a live context,
-- where consumeProviderStream has set fatalErr and the loop has returned already.
use workhorse_agent.Prelude.{
  ℕ, ◌/◌, Bool, true, false, not, ◌&&◌, ◌||◌, List, [], ◌∷◌, ◌++◌, Option, none, some, codes,
  text_eq, length, ltb, if◌then◌else◌, is_some,
}
use workhorse_agent.Provider.Message.{Message, ProviderError}
use workhorse_agent.Session.State.{thinking, await_perm, executing, compacting, transition}
use workhorse_agent.Session.History.{Session, replace_history}
use workhorse_agent.Permission.Gate.{Gate}
use workhorse_agent.Agent.Orchestrator.{ToolCall, ToolCallResult, run_all}
use workhorse_agent.Agent.Compaction.{
  Compaction, unchanged, summary_failed, compacted, compact, compact_with_keep, estimate_tokens,
}
use workhorse_agent.Agent.Loop.{
  Loop, World, Pass, Cut, clear, cancelled, panicked, End, ended, cut_off, crashed, failed, streams,
  move, emit, with_session, compaction, provider_failed,
}
use workhorse_agent.Agent.Loop.Stream.{Draft, empty_draft, consume_all, close_stream, produced}
use workhorse_agent.Agent.Loop.Batch.{
  intercept, check_permissions, after_gate, start_run, finish_run, results_by_id,
}

-- overflowRecovered and producedOutput.
pub record Flags : Type 0 where
  pub recovered : Bool
  pub has_output : Bool

-- How a pass ends: the turn is over, or the loop goes round.
pub data Next (Target : Type 0) : Type 0 where
  over : End → World Target → Next Target
  again : Flags → World Target → Next Target

abbrev is_overflow : ProviderError → Bool
is_overflow e = text_eq e.code (codes "context_length_exceeded")

unfoldable pub overflow_keep : ℕ → ℕ
overflow_keep recent_keep = if ltb (recent_keep / 2) 2 then 2 else recent_keep / 2

abbrev pub with_output : Draft → Flags → Flags
with_output d f = record f { has_output = f.has_output || produced d }

module _ {Target : Type 0} where
  unfoldable pub should_compact : Loop Target → Session → Bool
  should_compact l s = is_some l.compactor && l.over_limit (estimate_tokens s.history)

  unfoldable pub swap_history : List Message → World Target → World Target
  swap_history new w =
      emit (compaction (length w.session.history) (length new))
        (with_session (λ s. replace_history s new) w)

  abbrev pub swapped : Compaction → World Target → Bool × World Target
  swapped unchanged w = (false, w)
  swapped summary_failed w = (false, w)
  swapped (compacted new) w = (true, swap_history new w)

  -- True where the history was replaced; the callers tell the other ends apart in the log only.
  unfoldable pub compact_and_swap : (List Message → Compaction) → World Target → Bool × World Target
  compact_and_swap f w = elim (transition w.session.state thinking compacting) [
    | none ↦ (false, w)
    | some x ↦
        let w' = with_session (λ s. record s { state = x }) w in
        let (did, last) = swapped (f w.session.history) w' in
        (did, with_session (move compacting thinking) last)
  ]

  unfoldable pub run_compaction : Loop Target → World Target → World Target
  run_compaction l w = elim l.compactor [ none ↦ w | some c ↦ (compact_and_swap (compact c) w).1 ]

  unfoldable pub maybe_overflow_recover :
      Loop Target → Flags → Option ProviderError → World Target → Bool × World Target
  maybe_overflow_recover l f none w = (false, w)
  maybe_overflow_recover l f (some e) w =
      if f.recovered || f.has_output || not (is_overflow e) then (false, w) else elim l.compactor [
        | none ↦ (false, w)
        | some c ↦
            compact_and_swap (λ h. compact_with_keep c h (overflow_keep l.compact_recent_keep)) w
      ]

  -- An error of the request or of the stream.
  unfoldable pub provider_error :
      Loop Target → Flags → Option ProviderError → World Target → Next Target
  provider_error l f e w =
      let (did, w') = maybe_overflow_recover l f e w in
      if did
      then again (record f { recovered = true }) w'
      else over ended (emit (provider_failed e) w')

  -- The end of a step: its cut, or what comes after it.
  abbrev pub unless_cut : Cut → World Target → Next Target → Next Target
  unless_cut clear w next = next
  unless_cut cancelled w next = over cut_off w
  unless_cut panicked w next = over crashed w

  unfoldable pub run_tools :
      Flags
      → Loop Target
      → Pass
      → List ToolCall
      → List (ToolCallResult Target)
      → Gate
      → World Target
      → Next Target
  run_tools f l p calls intercepted g w =
      let w' = start_run g intercepted w in
      let (results, target) = run_all p.stopped l.orchestrator g.cleared w.target in
      let ran = record w' { target = target } in
      unless_cut p.tools ran (
        again f (
          with_session (λ s. move await_perm thinking (move executing thinking s))
            (finish_run (results_by_id results g.denied intercepted) calls ran)))

  unfoldable pub run_tool_batch :
      Flags → Loop Target → Pass → List ToolCall → World Target → Next Target
  run_tool_batch f l p calls w =
      let (passed, intercepted) = intercept l calls in
      let g = check_permissions l p.env w passed in
      unless_cut p.gate (after_gate g w) (run_tools f l p calls intercepted g (after_gate g w))

  abbrev pub after_stream : Flags → Loop Target → Pass → List ToolCall → World Target → Next Target
  after_stream f l p [] w = over ended w
  after_stream f l p (c ∷ cs) w = run_tool_batch f l p (c ∷ cs) w

  -- The world after what a draft has done so far.
  abbrev pub drafted : Draft → World Target → World Target
  drafted d w = record w { session = d.session; emitted = w.emitted ++ d.emitted }

  unfoldable pub stream_pass : Loop Target → Pass → Flags → Draft → World Target → Next Target
  stream_pass l p f d w = unless_cut p.stream (drafted d w) (elim d.fatal [
    | some e ↦ provider_error l (with_output d f) (some e) (drafted d w)
    | none ↦ after_stream (with_output d f) l p d.tool_calls (drafted (close_stream d) w)
  ])

  unfoldable pub request_pass : Loop Target → Pass → Flags → World Target → Next Target
  request_pass l p f w = elim p.reply [
    | failed e ↦ provider_error l f e w
    | streams evs ↦ stream_pass l p f (consume_all (empty_draft w.session) evs) w
  ]

  unfoldable pub turn_pass : Loop Target → Pass → Flags → World Target → Next Target
  turn_pass l p f w = unless_cut p.head w (
      if should_compact l w.session
      then unless_cut p.compacting (run_compaction l w) (request_pass l p f (run_compaction l w))
      else request_pass l p f w)

  -- No end where the script is over before the turn is.
  unfoldable pub turn_loop :
      Loop Target → List Pass → Flags → World Target → Option End × World Target
  turn_loop l [] f w = (none, w)
  turn_loop l (p ∷ ps) f w = elim (turn_pass l p f w) [
    | over e w' ↦ (some e, w')
    | again f' w' ↦ turn_loop l ps f' w'
  ]
