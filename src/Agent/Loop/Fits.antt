-- ===== src/Agent/Loop/Fits.antt =====
-- What a session is left with at each end of a pass, and that a batch of tools leaves it so.
use workhorse_agent.Prelude.{
  ◌≡◌, refl, ap, ◌∙◌, true, false, List, [], ◌∷◌, Dict, Option, none, some, Text, arith, is_some,
  any,
}
use workhorse_agent.Provider.Message.{ProviderError}
use workhorse_agent.Provider.Pairing.{has, SameIds, uses, results}
use workhorse_agent.Session.State.{State, thinking, await_perm, executing}
use workhorse_agent.Session.History.{Session, PendingToolUse}
use workhorse_agent.Session.History.Pending.{ids, ids-empty}
use workhorse_agent.Permission.Gate.{Gate}
use workhorse_agent.Agent.Orchestrator.{ToolCall, ToolCallResult, run_all}
use workhorse_agent.Agent.Loop.{
  Loop, World, Pass, Cut, clear, cancelled, panicked, End, ended, cut_off, crashed, emit,
  with_session, provider_failed, move,
}
use workhorse_agent.Agent.Loop.Batch.{
  intercept, check_permissions, after_gate, start_run, finish_run, results_by_id,
}
use workhorse_agent.Agent.Loop.Passes.{
  Flags, Next, over, again, run_tool_batch, run_tools, provider_error, maybe_overflow_recover,
  after_stream, unless_cut,
}
use workhorse_agent.Agent.Loop.Turn.{notify}
use workhorse_agent.Agent.Loop.Owed.{Owes, Rests, Owes-Rests, call_ids, append_message-Holds, Holds}
use workhorse_agent.Agent.Loop.Drafts.{}
use workhorse_agent.Agent.Loop.Settled.{move-same, move-Owes, move-Rests, finish_run-Rests}
use workhorse_agent.Agent.Loop.Orderly.{is_clear}

move-pending : (from to : State) (s : Session) → (move from to s).pending ≡ s.pending
move-pending from to s = move-same (λ t. t.pending ≡ s.pending) from to s (λ x. refl) refl

pub is_clear_iff : (c : Cut) → is_clear c ≡ true → c ≡ clear
is_clear_iff clear h = refl
is_clear_iff cancelled h = ground (arith, h)
is_clear_iff panicked h = ground (arith, h)

pub notify-Holds :
    (pending : Dict PendingToolUse) (ns : List Text) (s : Session)
    → Holds pending s
    → Holds pending (notify ns s)
unfolding notify uses results
notify-Holds pending [] s r = r
notify-Holds pending (n ∷ ns) s r =
    notify-Holds pending ns _ (append_message-Holds pending s _ refl refl r)

pub not_some {ℓ} : {A : Type ℓ} (o : Option A) → is_some o ≡ false → o ≡ none
not_some none h = refl
not_some (some x) h = ground (arith, h)

resumed-Rests :
    (s : Session) → Rests s → Rests (move await_perm thinking (move executing thinking s))
resumed-Rests s r =
    move-Rests await_perm thinking (move executing thinking s) (move-Rests executing thinking s r)

module _ {Target : Type 0} where
  abbrev pub EndFits : End → World Target → Type 0
  EndFits ended w = Rests w.session
  EndFits cut_off w = Owes w.session
  EndFits crashed w = Owes w.session

  abbrev pub LastFits : Option End → World Target → Type 0
  LastFits none w = Rests w.session
  LastFits (some e) w = EndFits e w

  abbrev pub Fits : Next Target → Type 0
  Fits (over e w) = EndFits e w
  Fits (again f w) = Rests w.session

  pub unless_cut-Fits :
      (c : Cut) (w : World Target) (n : Next Target)
      → Owes w.session
      → Fits n
      → Fits (unless_cut c w n)
  unless_cut-Fits clear w n o g = g
  unless_cut-Fits cancelled w n o g = o
  unless_cut-Fits panicked w n o g = o

  pub maybe_overflow_recover-none :
      (l : Loop Target) (f : Flags) (e : Option ProviderError) (w : World Target)
      → l.compactor ≡ none
      → maybe_overflow_recover l f e w ≡ (false, w)
  unfolding maybe_overflow_recover
  maybe_overflow_recover-none l f none w h = refl
  maybe_overflow_recover-none l f (some e) w h = ground (arith, h)

  pub provider_error-none :
      (l : Loop Target) (f : Flags) (e : Option ProviderError) (w : World Target)
      → l.compactor ≡ none
      → provider_error l f e w ≡ over ended (emit (provider_failed e) w)
  unfolding provider_error
  provider_error-none l f e w h = ground (arith, maybe_overflow_recover-none l f e w h)

  start_run-Owes :
      (g : Gate) (i : List (ToolCallResult Target)) (w : World Target)
      → Owes w.session
      → Owes (start_run g i w).session
  unfolding start_run
  start_run-Owes g i w o =
      move-Owes thinking executing (move await_perm executing w.session)
        (move-Owes await_perm executing w.session o)

  start_run-pending :
      (g : Gate) (i : List (ToolCallResult Target)) (w : World Target)
      → (start_run g i w).session.pending ≡ w.session.pending
  unfolding start_run
  start_run-pending g i w =
      move-pending thinking executing (move await_perm executing w.session)
      ∙ move-pending await_perm executing w.session

  run_tool_batch-Fits :
      (f : Flags) (l : Loop Target) (p : Pass) (cs : List ToolCall) (w : World Target)
      → Owes w.session
      → SameIds (ids w.session.pending) (call_ids cs)
      → Fits (run_tool_batch f l p cs w)
  unfolding run_tool_batch run_tools after_gate with_session
  run_tool_batch-Fits f l p cs w o e =
      let g = check_permissions l p.env w (intercept l cs).0 in
      let i = (intercept l cs).1 in
      let w' = after_gate g w in
      let ran = record (start_run g i w') {
        target = (run_all p.stopped l.orchestrator g.cleared w.target).1;
      } in
      let owes = start_run-Owes g i w' o in
      let m = results_by_id (run_all p.stopped l.orchestrator g.cleared w.target).0 g.denied i in
      unless_cut-Fits p.gate w' (run_tools f l p cs i g w') o (
        unless_cut-Fits p.tools ran
          (again f (
            with_session (λ s. move await_perm thinking (move executing thinking s))
              (finish_run m cs ran)))
          owes
          (resumed-Rests (finish_run m cs ran).session (
            finish_run-Rests m cs ran owes
              (λ j. ap (λ m. has (ids m) j) (start_run-pending g i w') ∙ e j))))

  pub after_stream-Fits :
      (f : Flags) (l : Loop Target) (p : Pass) (cs : List ToolCall) (w : World Target)
      → Owes w.session
      → SameIds (ids w.session.pending) (call_ids cs)
      → Fits (after_stream f l p cs w)
  unfolding has any
  after_stream-Fits f l p [] w o e = Owes-Rests w.session o (ids-empty w.session.pending e)
  after_stream-Fits f l p (c ∷ cs) w o e = run_tool_batch-Fits f l p (c ∷ cs) w o e
