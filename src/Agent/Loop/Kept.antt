-- ===== src/Agent/Loop/Kept.antt =====
-- A turn keeps the history paired, unless its stream is cut off, or fails, after a tool_use.
use workhorse_agent.Prelude.{
  ◌≡◌, refl, Bool, true, false, ◌&&◌, not, if◌then◌else◌, List, [], ◌∷◌, Dict, Option, none, some,
  Text, All, is_empty,
}
use workhorse_agent.Provider.Pairing.{Paired, uses, results}
use workhorse_agent.Session.State.{idle, thinking, transition, cancelled as turn_cancelled}
use workhorse_agent.Session.History.{PendingToolUse}
use workhorse_agent.Agent.Loop.{
  Loop, World, Pass, End, ended, cut_off, crashed, emit, with_session, session_busy, title_updated,
}
use workhorse_agent.Agent.Loop.Batch.{}
use workhorse_agent.Agent.Loop.Passes.{Flags, over, again, turn_pass, turn_loop}
use workhorse_agent.Agent.Loop.Turn.{
  run_turn, begin_turn, settle_turn, notify, title_turn, finish_cancelled_turn, handle_panic,
  no_flags, drain_into_history, derive_title,
}
use workhorse_agent.Agent.Loop.Owed.{
  Owes, Rests, Rests-Owes, append_message-Holds, Holds, drain_into_history-Rests,
}
use workhorse_agent.Agent.Loop.Drafts.{}
use workhorse_agent.Agent.Loop.Settled.{force-Rests}
use workhorse_agent.Agent.Loop.Orderly.{Orderly}
use workhorse_agent.Agent.Loop.Fits.{notify-Holds, LastFits, Fits}
use workhorse_agent.Agent.Loop.PassFits.{turn_pass-Fits}

module _ {Target : Type 0} where
  turn_loop-Fits :
      (l : Loop Target) (ps : List Pass) (f : Flags) (w : World Target)
      → l.compactor ≡ none
      → All Orderly ps
      → Rests w.session
      → LastFits (turn_loop l ps f w).0 (turn_loop l ps f w).1
  unfolding turn_loop
  turn_loop-Fits l [] f w h o r = r
  turn_loop-Fits l (p ∷ ps) f w h o r =
      (elim (turn_pass l p f w)
          as (λ n.
            Fits n
            → LastFits
                (elim n as (λ x. Option End × World Target) [
                  | over e x ↦ (some e, x)
                  | again g x ↦ turn_loop l ps g x
                ]).0
                (elim n as (λ x. Option End × World Target) [
                  | over e x ↦ (some e, x)
                  | again g x ↦ turn_loop l ps g x
                ]).1) [
                  | over e x ↦ λ fits. fits
                  | again g x ↦ λ fits. turn_loop-Fits l ps g x h o.1 fits
                ])
        (turn_pass-Fits l p f w h o.0 r)

  finish_cancelled_turn-Rests :
      (w : World Target) → Owes w.session → Rests (finish_cancelled_turn w).session
  unfolding finish_cancelled_turn emit with_session
  finish_cancelled_turn-Rests w o =
      force-Rests turn_cancelled (drain_into_history w.session)
        (drain_into_history-Rests w.session o)

  handle_panic-Rests : (w : World Target) → Owes w.session → Rests (handle_panic w).session
  unfolding handle_panic emit with_session
  handle_panic-Rests w o =
      force-Rests idle (drain_into_history w.session) (drain_into_history-Rests w.session o)

  settle_turn-Rests :
      (late : Bool) (e : Option End) (w : World Target)
      → LastFits e w
      → Rests (settle_turn late (e, w)).session
  unfolding with_session
  settle_turn-Rests late none w r = r
  settle_turn-Rests late (some cut_off) w o = force-Rests idle _ (finish_cancelled_turn-Rests w o)
  settle_turn-Rests false (some crashed) w o = force-Rests idle _ (handle_panic-Rests w o)
  settle_turn-Rests true (some crashed) w o = force-Rests idle _ (
      finish_cancelled_turn-Rests (handle_panic w)
        (Rests-Owes (handle_panic w).session (handle_panic-Rests w o)))
  settle_turn-Rests false (some ended) w r = force-Rests idle w.session r
  settle_turn-Rests true (some ended) w r =
      force-Rests idle _ (finish_cancelled_turn-Rests w (Rests-Owes w.session r))

  title_turn-Holds :
      (pending : Dict PendingToolUse) (l : Loop Target) (content : Text) (w : World Target)
      → Holds pending w.session
      → Holds pending (title_turn l content w).session
  unfolding title_turn emit with_session
  title_turn-Holds pending l content w r =
      elim (is_empty w.session.title && not (is_empty content))
        as (λ b.
          Holds pending
            (if b
              then emit (title_updated (derive_title l content))
                  (with_session (λ s. record s { title = derive_title l content }) w)
              else w).session) [ true ↦ r | false ↦ r ]

  pub begin_turn-Holds :
      (pending : Dict PendingToolUse) (l : Loop Target) (notices : List Text) (content : Text)
      (w : World Target)
      → Holds pending w.session
      → Holds pending (begin_turn l notices content w).session
  unfolding begin_turn uses results with_session
  begin_turn-Holds pending l notices content w r = title_turn-Holds pending l content _ (
      append_message-Holds pending (notify notices w.session) _ refl refl
        (notify-Holds pending notices w.session r))

  -- From a session whose history is paired and that has nothing pending, with no compactor, a turn
  -- leaves the history paired and nothing pending, at whatever step it is cancelled or panics and
  -- whatever the provider, the gate and the tools answer, if no stream that holds a tool_use is
  -- cut off or fails.
  pub run_turn-Paired :
      (l : Loop Target) (content : Option Text) (notices : List Text) (ps : List Pass) (late : Bool)
      (w : World Target)
      → l.compactor ≡ none
      → All Orderly ps
      → w.session.pending ≡ []
      → Paired w.session.history
      → ((run_turn l content notices ps late w).session.pending ≡ [])
        × Paired (run_turn l content notices ps late w).session.history
  unfolding run_turn emit with_session
  run_turn-Paired l none notices ps late w h o e r = (e, r)
  run_turn-Paired l (some content) notices ps late w h o e r =
      elim (transition w.session.state idle thinking)
        as (λ t.
          Rests
            (elim t as (λ x. World Target) [
              | none ↦ emit session_busy w
              | some x ↦ settle_turn late (
                  turn_loop l ps no_flags
                    (begin_turn l notices content (with_session (λ s. record s { state = x }) w)))
            ]).session) [
              | none ↦ (e, r)
              | some x ↦
                  let start =
                    begin_turn l notices content (with_session (λ s. record s { state = x }) w) in
                  settle_turn-Rests late (turn_loop l ps no_flags start).0
                    (turn_loop l ps no_flags start).1
                    (turn_loop-Fits l ps no_flags start h o (
                      begin_turn-Holds [] l notices content
                        (with_session (λ s. record s { state = x }) w) (e, r)))
            ]
