-- ===== src/Agent/Loop/Ends.antt =====
-- That a turn ends, and ends idle.
use workhorse_agent.Prelude.{
  ◌≡◌, refl, ap, ◌∙◌, Bool, true, false, ◌||◌, not, List, [], ◌∷◌, Option, none, some, Text, any,
  arith, is_some, Bool-cases, Option-cases, inl, inr,
}
use workhorse_agent.Provider.Message.{ProviderEvent}
use workhorse_agent.Session.State.{idle, thinking, transition}
use workhorse_agent.Agent.Orchestrator.{ToolCall}
use workhorse_agent.Agent.Loop.{
  Loop, World, Pass, Cut, clear, cancelled, panicked, End, ended, cut_off, crashed, Reply, failed,
  streams, emit, with_session, session_busy,
}
use workhorse_agent.Agent.Loop.Stream.{empty_draft, consume_all, close_stream}
use workhorse_agent.Agent.Loop.Passes.{
  Flags, Next, over, again, turn_pass, request_pass, stream_pass, run_tool_batch, run_tools,
  turn_loop, drafted, after_stream, unless_cut, provider_error, with_output,
}
use workhorse_agent.Agent.Loop.Turn.{
  run_turn, settle_turn, no_flags, begin_turn, finish_cancelled_turn, handle_panic,
}
use workhorse_agent.Agent.Loop.Settled.{force-idle}
use workhorse_agent.Agent.Loop.Orderly.{
  has_tool_use, has_fatal, is_clear, consume_all-fatal, consume_all-no_calls,
}
use workhorse_agent.Agent.Loop.Fits.{provider_error-none}
use workhorse_agent.Agent.Loop.PassFits.{turn_pass-requests}

-- A pass that is cut somewhere, that the provider fails, or that asks for no tool.
unfoldable pub last_reply : Pass → Reply → Bool
last_reply p (failed e) = true
last_reply p (streams evs) =
    not (is_clear p.stream)
    || has_fatal evs
    || not (has_tool_use evs)
    || not (is_clear p.gate)
    || not (is_clear p.tools)

unfoldable pub is_last : Pass → Bool
is_last p = not (is_clear p.head) || last_reply p p.reply

module _ {Target : Type 0} where
  abbrev is_over : Next Target → Bool
  is_over (over e w) = true
  is_over (again f w) = false

  unless_cut-over :
      (c : Cut) (w : World Target) (n : Next Target)
      → is_over (unless_cut c w n) ≡ (not (is_clear c) || is_over n)
  unless_cut-over clear w n = refl
  unless_cut-over cancelled w n = refl
  unless_cut-over panicked w n = refl

  after_stream-over :
      (f : Flags) (l : Loop Target) (p : Pass) (cs : List ToolCall) (w : World Target)
      → (not (is_clear p.gate) || not (is_clear p.tools)) ≡ true
      → is_over (after_stream f l p cs w) ≡ true
  unfolding run_tool_batch run_tools
  after_stream-over f l p [] w h = refl
  after_stream-over f l p (c ∷ cs) w h = ground (arith, h)

  stream_pass-over :
      (l : Loop Target) (p : Pass) (f : Flags) (w : World Target) (evs : List ProviderEvent)
      → l.compactor ≡ none
      → last_reply p (streams evs) ≡ true
      → is_over (stream_pass l p f (consume_all (empty_draft w.session) evs) w) ≡ true
  unfolding stream_pass last_reply
  stream_pass-over l p f w evs h last =
      let d = consume_all (empty_draft w.session) evs in
      elim (Option-cases d.fatal) [
        | inr (e, q) ↦
            ground (arith, q, provider_error-none l (with_output d f) (some e) (drafted d w) h)
        | inl n ↦ elim (Bool-cases (has_tool_use evs)) [
          | inr quiet ↦ ground (arith, n, consume_all-no_calls (empty_draft w.session) evs quiet)
          | inl asks ↦ ground (
            arith,
            n,
            last,
            asks,
            consume_all-fatal (empty_draft w.session) evs,
            after_stream-over (with_output d f) l p d.tool_calls (drafted (close_stream d) w),
          )
        ]
      ]

  reply-over :
      (l : Loop Target) (p : Pass) (f : Flags) (w : World Target) (reply : Reply)
      → l.compactor ≡ none
      → last_reply p reply ≡ true
      → is_over (elim reply as (λ r. Next Target) [
        | failed e ↦ provider_error l f e w
        | streams evs ↦ stream_pass l p f (consume_all (empty_draft w.session) evs) w
      ])
        ≡ true
  reply-over l p f w (failed e) h last = ap is_over (provider_error-none l f e w h)
  reply-over l p f w (streams evs) h last = stream_pass-over l p f w evs h last

  turn_pass-over :
      (l : Loop Target) (p : Pass) (f : Flags) (w : World Target)
      → l.compactor ≡ none
      → is_last p ≡ true
      → is_over (turn_pass l p f w) ≡ true
  unfolding is_last request_pass
  turn_pass-over l p f w h last =
      ap is_over (turn_pass-requests l p f w h)
      ∙ unless_cut-over p.head w (request_pass l p f w)
      ∙ ground (arith, last, reply-over l p f w p.reply h)

  turn_loop-ends :
      (l : Loop Target) (ps : List Pass) (f : Flags) (w : World Target)
      → l.compactor ≡ none
      → any is_last ps ≡ true
      → is_some (turn_loop l ps f w).0 ≡ true
  unfolding turn_loop any
  turn_loop-ends l [] f w h last = ground (arith, last)
  turn_loop-ends l (p ∷ ps) f w h last =
      (elim (turn_pass l p f w)
          as (λ n.
            (is_last p ≡ true → is_over n ≡ true)
            → is_some
                (elim n as (λ x. Option End × World Target) [
                  | over e x ↦ (some e, x)
                  | again g x ↦ turn_loop l ps g x
                ]).0
              ≡ true) [
                | over e x ↦ λ k. refl
                | again g x ↦ λ k. elim (Bool-cases (is_last p)) [
                  | inl now ↦ ground (arith, k now)
                  | inr later ↦ turn_loop-ends l ps g x h (ground (arith, last, later))
                ]
              ])
        (turn_pass-over l p f w h)

  settle_turn-idle :
      (late : Bool) (e : Option End) (w : World Target)
      → is_some e ≡ true
      → (settle_turn late (e, w)).session.state ≡ idle
  unfolding with_session
  settle_turn-idle late none w h = ground (arith, h)
  settle_turn-idle late (some cut_off) w h = force-idle (finish_cancelled_turn w).session
  settle_turn-idle false (some crashed) w h = force-idle (handle_panic w).session
  settle_turn-idle true (some crashed) w h =
      force-idle (finish_cancelled_turn (handle_panic w)).session
  settle_turn-idle false (some ended) w h = force-idle w.session
  settle_turn-idle true (some ended) w h = force-idle (finish_cancelled_turn w).session

  -- With no compactor, a turn of an idle session is over, and the session idle again, if the
  -- script has a pass that is cut at its head, whose request or stream fails, whose stream is cut,
  -- that asks for no tool, or whose gate or tools are cut.
  pub run_turn-idle :
      (l : Loop Target) (content : Option Text) (notices : List Text) (ps : List Pass) (late : Bool)
      (w : World Target)
      → l.compactor ≡ none
      → w.session.state ≡ idle
      → any is_last ps ≡ true
      → (run_turn l content notices ps late w).session.state ≡ idle
  unfolding run_turn emit
  run_turn-idle l none notices ps late w h i last = i
  run_turn-idle l (some content) notices ps late w h i last =
      elim (transition w.session.state idle thinking)
        as (λ t.
          (elim t as (λ x. World Target) [
            | none ↦ emit session_busy w
            | some x ↦ settle_turn late (
                turn_loop l ps no_flags
                  (begin_turn l notices content (with_session (λ s. record s { state = x }) w)))
          ]).session.state
          ≡ idle) [
            | none ↦ i
            | some x ↦
                let start =
                  begin_turn l notices content (with_session (λ s. record s { state = x }) w) in
                settle_turn-idle late (turn_loop l ps no_flags start).0
                  (turn_loop l ps no_flags start).1 (turn_loop-ends l ps no_flags start h last)
          ]
