-- ===== src/Agent/Loop/PassFits.antt =====
-- That a pass whose stream is orderly leaves its session as its end wants it.
use workhorse_agent.Prelude.{◌≡◌, sym, true, [], Option, none, some, arith, Bool-cases, inl, inr}
use mathlib.Core.Path.{subst}
use workhorse_agent.Provider.Message.{ProviderError}
use workhorse_agent.Provider.Pairing.{Paired}
use workhorse_agent.Agent.Loop.{Loop, World, Pass, clear, Reply, failed, streams, emit}
use workhorse_agent.Agent.Loop.Stream.{Draft, empty_draft, consume_all, close_stream}
use workhorse_agent.Agent.Loop.Batch.{}
use workhorse_agent.Agent.Loop.Passes.{
  Flags, turn_pass, request_pass, stream_pass, provider_error, should_compact, after_stream,
  unless_cut, drafted, with_output,
}
use workhorse_agent.Agent.Loop.Turn.{}
use workhorse_agent.Agent.Loop.Owed.{Rests, Rests-Owes}
use workhorse_agent.Agent.Loop.Drafts.{
  Agrees, empty_draft-Agrees, consume_all-Agrees, close_stream-Owes, Agrees-Rests,
}
use workhorse_agent.Agent.Loop.Orderly.{
  Orderly, has_tool_use, orderly_reply, consume_all-fatal, consume_all-no_calls,
}
use workhorse_agent.Agent.Loop.Fits.{
  is_clear_iff, not_some, Fits, unless_cut-Fits, provider_error-none, after_stream-Fits,
}

module _ {Target : Type 0} where
  provider_error-Fits :
      (l : Loop Target) (f : Flags) (e : Option ProviderError) (w : World Target)
      → l.compactor ≡ none
      → Rests w.session
      → Fits (provider_error l f e w)
  unfolding emit
  provider_error-Fits l f e w h r = subst Fits (sym (provider_error-none l f e w h)) r

  closed-Fits :
      (l : Loop Target) (p : Pass) (f : Flags) (d : Draft) (w : World Target)
      → Paired w.session.history
      → Agrees w.session.history d
      → Fits (after_stream (with_output d f) l p d.tool_calls (drafted (close_stream d) w))
  closed-Fits l p f d w r a =
      let (owes, same) = close_stream-Owes w.session.history d r a in
      after_stream-Fits (with_output d f) l p d.tool_calls (drafted (close_stream d) w) owes same

  -- A draft without calls, whatever becomes of its stream.
  quiet-Fits :
      (l : Loop Target) (p : Pass) (f : Flags) (d : Draft) (w : World Target)
      → l.compactor ≡ none
      → Paired w.session.history
      → Agrees w.session.history d
      → d.tool_calls ≡ []
      → Fits (stream_pass l p f d w)
  unfolding stream_pass
  quiet-Fits l p f d w h r a e =
      let rests = Agrees-Rests w.session.history d r a e in
      unless_cut-Fits p.stream (drafted d w) _ (Rests-Owes d.session rests)
        (elim d.fatal
          as (λ o. Fits (elim o [
            | none ↦ after_stream (with_output d f) l p d.tool_calls (drafted (close_stream d) w)
            | some e ↦ provider_error l (with_output d f) (some e) (drafted d w)
          ])) [
            | none ↦ closed-Fits l p f d w r a
            | some x ↦ provider_error-Fits l (with_output d f) (some x) (drafted d w) h rests
          ])

  pub stream_pass-open :
      (l : Loop Target) (p : Pass) (f : Flags) (d : Draft) (w : World Target)
      → p.stream ≡ clear
      → d.fatal ≡ none
      → stream_pass l p f d w
        ≡ after_stream (with_output d f) l p d.tool_calls (drafted (close_stream d) w)
  unfolding stream_pass
  stream_pass-open l p f d w s n = ground (arith, s, n)

  open-Fits :
      (l : Loop Target) (p : Pass) (f : Flags) (d : Draft) (w : World Target)
      → Paired w.session.history
      → Agrees w.session.history d
      → p.stream ≡ clear
      → d.fatal ≡ none
      → Fits (stream_pass l p f d w)
  open-Fits l p f d w r a s n =
      subst Fits (sym (stream_pass-open l p f d w s n)) (closed-Fits l p f d w r a)

  reply-Fits :
      (l : Loop Target) (p : Pass) (f : Flags) (w : World Target) (reply : Reply)
      → l.compactor ≡ none
      → orderly_reply p.stream reply ≡ true
      → Rests w.session
      → Fits (elim reply [
        | failed e ↦ provider_error l f e w
        | streams evs ↦ stream_pass l p f (consume_all (empty_draft w.session) evs) w
      ])
  unfolding orderly_reply
  reply-Fits l p f w (failed e) h o r = provider_error-Fits l f e w h r
  reply-Fits l p f w (streams evs) h o r =
      let d = consume_all (empty_draft w.session) evs in
      let agrees =
        consume_all-Agrees w.session.history (empty_draft w.session) evs
          (empty_draft-Agrees w.session r.0) in
      elim (Bool-cases (has_tool_use evs)) [
        | inr quiet ↦
            quiet-Fits l p f d w h r.1 agrees
              (consume_all-no_calls (empty_draft w.session) evs quiet)
        | inl asks ↦
            open-Fits l p f d w r.1 agrees (is_clear_iff p.stream (ground (arith, o, asks))) (
              not_some d.fatal
                (ground (arith, o, asks, consume_all-fatal (empty_draft w.session) evs)))
      ]

  pub turn_pass-requests :
      (l : Loop Target) (p : Pass) (f : Flags) (w : World Target)
      → l.compactor ≡ none
      → turn_pass l p f w ≡ unless_cut p.head w (request_pass l p f w)
  unfolding turn_pass should_compact
  turn_pass-requests l p f w h = ground (arith, h)

  pub turn_pass-Fits :
      (l : Loop Target) (p : Pass) (f : Flags) (w : World Target)
      → l.compactor ≡ none
      → Orderly p
      → Rests w.session
      → Fits (turn_pass l p f w)
  unfolding request_pass
  turn_pass-Fits l p f w h o r = subst Fits (sym (turn_pass-requests l p f w h)) (
      unless_cut-Fits p.head w (request_pass l p f w) (Rests-Owes w.session r)
        (reply-Fits l p f w p.reply h o r))
