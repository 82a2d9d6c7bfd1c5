-- ===== src/Agent/Loop/Turn.antt =====
-- runTurnSafe of internal/agent/loop.go and what it calls around the loop of the turn, and
-- dispatchCompactIdle.
use workhorse_agent.Prelude.{
  ℕ, Bool, true, false, not, ◌&&◌, List, [], ◌∷◌, ◌++◌, Option, none, some, Text, codes, is_empty,
  map, length, take, ltb, ◌==◌, if◌then◌else◌,
}
use workhorse_agent.Provider.Message.{ContentBlock, text, tool_result, user, system}
use workhorse_agent.Session.State.{
  State, idle, thinking, compacting, cancelled, transition, force_transition, same_state,
}
use workhorse_agent.Session.History.{
  Session, PendingToolUse, append_message, drain_pending_tool_uses,
}
use workhorse_agent.Agent.Compaction.{compact}
use workhorse_agent.Agent.Loop.{
  Loop, World, Pass, End, ended, cut_off, crashed, move, emit, with_session, session_busy,
  title_updated, interrupted, internal_panic,
}
use workhorse_agent.Agent.Loop.Passes.{Flags, turn_loop, swapped}

unfoldable pub cancelled_output : Text
unfolding codes
cancelled_output = codes "[CANCELLED] Tool execution was interrupted by user"

abbrev pub cancelled_block : PendingToolUse → ContentBlock
cancelled_block p = tool_result p.id cancelled_output true

-- A cancelled result for each pending tool use, where there is one.
abbrev pub answer_pending : List PendingToolUse → Session → Session
answer_pending [] s = s
answer_pending (p ∷ ps) s =
    append_message s
      (record { role = user; content = map cancelled_block (p ∷ ps); stop_reason = [] })

unfoldable pub drain_into_history : Session → Session
drain_into_history s = let (ps, s') = drain_pending_tool_uses s in answer_pending ps s'

-- `if State() != to { _ = ForceTransition(to) }`
unfoldable pub force : State → Session → Session
force to s =
    if same_state s.state to
    then s
    else elim (force_transition s.state to) [ none ↦ s | some x ↦ record s { state = x } ]

-- The text up to the first such byte.
unfoldable pub until : ℕ → Text → Text
until b [] = []
until b (c ∷ cs) = let rest = until b cs in if c == b then [] else c ∷ rest

unfoldable pub notify : List Text → Session → Session
notify [] s = s
notify (n ∷ ns) s =
    notify ns (append_message s (record { role = system; content = text n ∷ []; stop_reason = [] }))

abbrev pub no_flags : Flags
no_flags = record { recovered = false; has_output = false }

module _ {Target : Type 0} where
  unfoldable pub derive_title : Loop Target → Text → Text
  derive_title l s =
      let line = until 13 (until 10 (l.trim s)) in
      if ltb 80 (length (l.runes line))
      then l.text_of (take 77 (l.runes line)) ++ codes "..."
      else line

  unfoldable pub finish_cancelled_turn : World Target → World Target
  finish_cancelled_turn w =
      emit interrupted (with_session (λ s. force cancelled (drain_into_history s)) w)

  unfoldable pub handle_panic : World Target → World Target
  handle_panic w = emit internal_panic (with_session (λ s. force idle (drain_into_history s)) w)

  unfoldable pub title_turn : Loop Target → Text → World Target → World Target
  title_turn l content w =
      if is_empty w.session.title && not (is_empty content)
      then emit (title_updated (derive_title l content))
          (with_session (λ s. record s { title = derive_title l content }) w)
      else w

  -- Up to the start of the turn's goroutine.
  unfoldable pub begin_turn : Loop Target → List Text → Text → World Target → World Target
  begin_turn l notices content w = title_turn l content (
      with_session
        (λ s.
          append_message (notify notices s)
            (record { role = user; content = text content ∷ []; stop_reason = [] }))
        w)

  -- `late` is a cancellation that comes after the goroutine's last look at the context. One whose
  -- drain budget runs out is a cut of the step that the goroutine is stuck in; what it does when it
  -- wakes up later is not modelled.
  abbrev pub settle_turn : Bool → Option End × World Target → World Target
  settle_turn late (none, w) = w
  settle_turn late (some cut_off, w) = with_session (force idle) (finish_cancelled_turn w)
  settle_turn false (some crashed, w) = with_session (force idle) (handle_panic w)
  settle_turn true (some crashed, w) =
      with_session (force idle) (finish_cancelled_turn (handle_panic w))
  settle_turn false (some ended, w) = with_session (force idle) w
  settle_turn true (some ended, w) = with_session (force idle) (finish_cancelled_turn w)

  -- `content` is none where the payload is not the JSON of a user message; `notices` are what
  -- ConsumePending of Config.Notifications answers, nothing where that is nil.
  unfoldable pub run_turn :
      Loop Target → Option Text → List Text → List Pass → Bool → World Target → World Target
  run_turn l none notices ps late w = w
  run_turn l (some content) notices ps late w = elim (transition w.session.state idle thinking) [
    | none ↦ emit session_busy w
    | some x ↦ settle_turn late (
        turn_loop l ps no_flags
          (begin_turn l notices content (with_session (λ s. record s { state = x }) w)))
  ]

  unfoldable pub dispatch_compact_idle : Loop Target → World Target → World Target
  dispatch_compact_idle l w = elim l.compactor [
    | none ↦ w
    | some c ↦ elim (transition w.session.state idle compacting) [
      | none ↦ w
      | some x ↦
          with_session (move compacting idle)
            (swapped (compact c w.session.history) (with_session (λ s. record s { state = x }) w)).1
    ]
  ]
