-- ===== src/Agent/Loop/Unpaired.antt =====
-- How a turn comes to break the pairing rule: results for tool uses that no message holds.
use workhorse_agent.Prelude.{
  ◌≡◌, refl, sym, ap, ◌∙◌, Bool, true, false, List, [], ◌∷◌, Option, none, some, Text, arith,
  Option-cases, inl, inr, Dict,
}
use mathlib.Core.Path.{subst}
use workhorse_agent.Provider.Message.{ProviderError, ProviderEvent}
use workhorse_agent.Provider.Pairing.{has, Paired}
use workhorse_agent.Session.State.{
  State, idle, thinking, transition, cancelled as turn_cancelled, same_state, allowed_transitions,
}
use workhorse_agent.Session.History.{Session, PendingToolUse}
use workhorse_agent.Session.History.Pending.{ids}
use workhorse_agent.Agent.Loop.{
  Loop, World, Pass, clear, cancelled, End, ended, cut_off, streams, emit, with_session,
  provider_failed, session_busy,
}
use workhorse_agent.Agent.Loop.Stream.{empty_draft, consume_all}
use workhorse_agent.Agent.Loop.Passes.{
  Flags, over, again, turn_pass, request_pass, stream_pass, turn_loop, drafted, unless_cut,
  with_output,
}
use workhorse_agent.Agent.Loop.Turn.{
  run_turn, begin_turn, settle_turn, finish_cancelled_turn, force, no_flags, drain_into_history,
}
use workhorse_agent.Agent.Loop.Owed.{Holds}
use workhorse_agent.Agent.Loop.Settled.{force-same, force-idle}
use workhorse_agent.Agent.Loop.Orderly.{has_tool_use, has_fatal, consume_all-fatal}
use workhorse_agent.Agent.Loop.Kept.{begin_turn-Holds}
use workhorse_agent.Agent.Loop.Fits.{provider_error-none}
use workhorse_agent.Agent.Loop.PassFits.{turn_pass-requests}
use workhorse_agent.Agent.Loop.Unasked.{asked, drain-unpaired}

force-history : (to : State) (s : Session) → (force to s).history ≡ s.history
force-history to s = force-same (λ t. t.history ≡ s.history) to s (λ x. refl) refl

force-pending : (to : State) (s : Session) → (force to s).pending ≡ s.pending
force-pending to s = force-same (λ t. t.pending ≡ s.pending) to s (λ x. refl) refl

module _ {Target : Type 0} where
  abbrev started : Loop Target → List Text → Text → World Target → World Target
  started l notices content w =
      begin_turn l notices content (with_session (λ s. record s { state = thinking }) w)

  started-Holds :
      (m : Dict PendingToolUse) (l : Loop Target) (notices : List Text) (content : Text)
      (w : World Target)
      → Holds m w.session
      → Holds m (started l notices content w).session
  unfolding with_session
  started-Holds m l notices content w h =
      begin_turn-Holds m l notices content (with_session (λ s. record s { state = thinking }) w) h

  -- A turn that is over in its first pass.
  run_turn-first :
      (l : Loop Target) (content : Text) (notices : List Text) (p : Pass) (ps : List Pass)
      (late : Bool) (w w' : World Target) (e : End)
      → w.session.state ≡ idle
      → turn_pass l p no_flags (started l notices content w) ≡ over e w'
      → run_turn l (some content) notices (p ∷ ps) late w ≡ settle_turn late (some e, w')
  unfolding run_turn turn_loop transition same_state allowed_transitions
  run_turn-first l content notices p ps late w w' e i h =
      ap
        (λ t. elim t as (λ x. World Target) [
          | none ↦ emit session_busy w
          | some x ↦ settle_turn late (
              turn_loop l (p ∷ ps) no_flags
                (begin_turn l notices content (with_session (λ s. record s { state = x }) w)))
        ])
        (ap (λ x. transition x idle thinking) i)
      ∙ ap
          (λ n. settle_turn late (elim n as (λ x. Option End × World Target) [
            | over e x ↦ (some e, x)
            | again f x ↦ turn_loop l ps f x
          ]))
          h

  cut_pass :
      (l : Loop Target) (p : Pass) (f : Flags) (w : World Target) (evs : List ProviderEvent)
      → l.compactor ≡ none
      → p.head ≡ clear
      → p.reply ≡ streams evs
      → p.stream ≡ cancelled
      → turn_pass l p f w ≡ over cut_off (drafted (consume_all (empty_draft w.session) evs) w)
  unfolding request_pass stream_pass
  cut_pass l p f w evs h hd r s = ground (arith, turn_pass-requests l p f w h, hd, r, s)

  failed_pass :
      (l : Loop Target) (p : Pass) (f : Flags) (w : World Target) (evs : List ProviderEvent)
      → l.compactor ≡ none
      → p.head ≡ clear
      → p.reply ≡ streams evs
      → p.stream ≡ clear
      → has_fatal evs ≡ true
      → (e : ProviderError) × (turn_pass l p f w
          ≡ over ended (
              emit
                (provider_failed (some e))
                (drafted (consume_all (empty_draft w.session) evs) w)))
  unfolding request_pass stream_pass
  failed_pass l p f w evs h hd r s x =
      let d = consume_all (empty_draft w.session) evs in
      elim (Option-cases d.fatal) [
        | inl n ↦ ground (arith, x, consume_all-fatal (empty_draft w.session) evs, n)
        | inr (e, q) ↦ (
          e,
          ground (
            arith,
            turn_pass-requests l p f w h,
            hd,
            r,
            s,
            q,
            provider_error-none l (with_output d f) (some e) (drafted d w) h,
          ),
        )
      ]

  cut_off-unpaired :
      (late : Bool) (w : World Target) (j : Text)
      → Paired w.session.history
      → has (ids w.session.pending) j ≡ true
      → ¬ Paired (settle_turn late (some cut_off, w)).session.history
  unfolding finish_cancelled_turn emit with_session
  cut_off-unpaired late w j p h q = drain-unpaired w.session j p h (
      subst Paired
        (force-history idle (finish_cancelled_turn w).session
          ∙ force-history turn_cancelled (drain_into_history w.session))
        q)

  -- With no compactor, from an idle session with a paired history and nothing pending, a turn
  -- whose first stream holds a tool_use and is cancelled while it is read leaves a history that is
  -- not paired: the tool_use was never appended, and the clean-up appends a result for it.
  pub run_turn-cut_stream :
      (l : Loop Target) (content : Text) (notices : List Text) (p : Pass) (ps : List Pass)
      (late : Bool) (w : World Target) (evs : List ProviderEvent)
      → l.compactor ≡ none
      → w.session.state ≡ idle
      → w.session.pending ≡ []
      → Paired w.session.history
      → p.head ≡ clear
      → p.reply ≡ streams evs
      → has_tool_use evs ≡ true
      → p.stream ≡ cancelled
      → ¬ Paired (run_turn l (some content) notices (p ∷ ps) late w).session.history
  run_turn-cut_stream l content notices p ps late w evs h i e pd hd r asks c q =
      let start = started l notices content w in
      let rests = started-Holds [] l notices content w (e, pd) in
      let d = consume_all (empty_draft start.session) evs in
      let (same, j, found) = asked start.session evs rests asks in
      cut_off-unpaired late (drafted d start) j (subst Paired (sym same) rests.1) found (
        subst (λ x. Paired x.session.history)
          (run_turn-first l content notices p ps late w (drafted d start) cut_off i
            (cut_pass l p no_flags start evs h hd r c))
          q)

  -- Where something is pending that no message of a paired history asked for, a turn that is
  -- cancelled at its start breaks the pairing.
  stale_turn-unpaired :
      (l : Loop Target) (content : Text) (notices : List Text) (p : Pass) (ps : List Pass)
      (late : Bool) (w : World Target) (j : Text)
      → l.compactor ≡ none
      → w.session.state ≡ idle
      → p.head ≡ cancelled
      → Paired w.session.history
      → has (ids w.session.pending) j ≡ true
      → ¬ Paired (run_turn l (some content) notices (p ∷ ps) late w).session.history
  stale_turn-unpaired l content notices p ps late w j h i hd pd found q =
      let start = started l notices content w in
      let holds = started-Holds w.session.pending l notices content w (refl, pd) in
      cut_off-unpaired late start j holds.1 (ap (λ m. has (ids m) j) holds.0 ∙ found) (
        subst (λ x. Paired x.session.history)
          (run_turn-first l content notices p ps late w start cut_off i (
            turn_pass-requests l p no_flags start h
            ∙ ap (λ c. unless_cut c start (request_pass l p no_flags start)) hd))
          q)

  -- With no compactor, from an idle session with a paired history and nothing pending, a turn
  -- whose first stream holds a tool_use and a fatal error leaves the history paired; but the tool
  -- use stays pending, and if the next turn is cancelled at its head, the history after it is not
  -- paired.
  pub run_turn-failed_stream :
      (l : Loop Target) (content content' : Text) (notices notices' : List Text) (p p' : Pass)
      (ps ps' : List Pass) (late : Bool) (w : World Target) (evs : List ProviderEvent)
      → l.compactor ≡ none
      → w.session.state ≡ idle
      → w.session.pending ≡ []
      → Paired w.session.history
      → p.head ≡ clear
      → p.reply ≡ streams evs
      → has_tool_use evs ≡ true
      → has_fatal evs ≡ true
      → p.stream ≡ clear
      → p'.head ≡ cancelled
      → Paired (run_turn l (some content) notices (p ∷ ps) false w).session.history
        × ¬ Paired
            (run_turn l
              (some content')
              notices'
              (p' ∷ ps')
              late
              (run_turn l (some content) notices (p ∷ ps) false w)).session.history
  unfolding emit with_session
  run_turn-failed_stream l content content' notices notices' p p' ps ps' late w evs h i e pd hd r
        asks f c hd' =
      let start = started l notices content w in
      let rests = started-Holds [] l notices content w (e, pd) in
      let d = consume_all (empty_draft start.session) evs in
      let (same, j, found) = asked start.session evs rests asks in
      let (err, failed_so) = failed_pass l p no_flags start evs h hd r c f in
      let first =
        run_turn-first l content notices p ps false w
          (emit (provider_failed (some err)) (drafted d start)) ended i failed_so in
      let now = run_turn l (some content) notices (p ∷ ps) false w in
      let paired =
        subst Paired (sym (ap (λ x. x.session.history) first ∙ force-history idle d.session ∙ same))
          rests.1 in
      (
        paired,
        stale_turn-unpaired l content' notices' p' ps' late now j h
            (ap (λ x. x.session.state) first ∙ force-idle d.session) hd' paired
            (ap (λ x. has (ids x.session.pending) j) first
              ∙ ap (λ m. has (ids m) j) (force-pending idle d.session)
              ∙ found),
      )
