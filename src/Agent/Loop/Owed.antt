-- ===== src/Agent/Loop/Owed.antt =====
-- The pending tool uses of a session as what its history owes: what a stream, a batch of tools and
-- the end of a turn make of them.
use workhorse_agent.Prelude.{◌≡◌, refl, sym, ap, List, [], ◌∷◌, ◌++◌, Text, Dict, map, arith}
use mathlib.Core.Path.{subst}
use workhorse_agent.Provider.Message.{ContentBlock, text, tool_use, tool_result, reasoning, Message}
use workhorse_agent.Provider.Pairing.{uses, results, has, Follows, Paired, Follows-snoc}
use workhorse_agent.Session.History.{
  Session, PendingToolUse, entries, append_message, drain_pending_tool_uses,
}
use workhorse_agent.Session.History.Pending.{ids, KeyedById}
use workhorse_agent.Agent.Orchestrator.{ToolCall}
use workhorse_agent.Agent.Loop.Stream.{append_text}
use workhorse_agent.Agent.Loop.Turn.{cancelled_block, answer_pending, drain_into_history}

-- The history is well paired up to its last message, which asks for just the pending tool uses.
abbrev pub Owes : Session → Type 0
Owes s = KeyedById s.pending × Follows [] s.history (ids s.pending)

-- The history is paired, whatever is pending.
abbrev pub Holds : Dict PendingToolUse → Session → Type 0
Holds m s = (s.pending ≡ m) × Paired s.history

-- Nothing is owed.
abbrev pub Rests : Session → Type 0
Rests s = Holds [] s

abbrev pub call_ids : List ToolCall → List Text
call_ids cs = map (λ c. c.id) cs

pub Rests-Owes : (s : Session) → Rests s → Owes s
unfolding Paired ids entries
Rests-Owes s (e, p) =
    (subst KeyedById (sym e) tt, subst (λ m. Follows [] s.history (ids m)) (sym e) p)

pub Owes-Rests : (s : Session) → Owes s → s.pending ≡ [] → Rests s
unfolding Paired ids entries
Owes-Rests s (k, f) e = (e, subst (λ m. Follows [] s.history (ids m)) e f)

-- A message without tool blocks.
pub append_message-Holds :
    (pending : Dict PendingToolUse) (s : Session) (m : Message)
    → results m.content ≡ []
    → uses m.content ≡ []
    → Holds pending s
    → Holds pending (append_message s m)
unfolding append_message Paired
append_message-Holds pending s m r u (e, p) = (
  e,
  subst (Follows [] (s.history ++ m ∷ [])) u
      (Follows-snoc [] s.history [] m p (λ j. ap (λ xs. has xs j) (sym r))),
)

pub results-cancelled :
    (ps : List PendingToolUse) → results (map cancelled_block ps) ≡ map (λ p. p.id) ps
unfolding results
results-cancelled [] = refl
results-cancelled (p ∷ ps) = ground (arith, results-cancelled ps)

uses-cancelled : (ps : List PendingToolUse) → uses (map cancelled_block ps) ≡ []
unfolding uses
uses-cancelled [] = refl
uses-cancelled (p ∷ ps) = uses-cancelled ps

answered :
    (s : Session) (ps : List PendingToolUse)
    → s.pending ≡ []
    → Follows [] s.history (map (λ p. p.id) ps)
    → Rests (answer_pending ps s)
unfolding append_message Paired
answered s [] e f = (e, f)
answered s (p ∷ ps) e f = (
  e,
  subst (Follows [] _) (uses-cancelled (p ∷ ps)) (
      Follows-snoc [] s.history (map (λ p. p.id) (p ∷ ps)) _ f
        (λ j. ap (λ xs. has xs j) (sym (results-cancelled (p ∷ ps))))),
)

pub drain_into_history-Rests : (s : Session) → Owes s → Rests (drain_into_history s)
unfolding drain_into_history drain_pending_tool_uses ids
drain_into_history-Rests s (k, f) = answered (record s { pending = [] }) (entries s.pending) refl f

pub uses-append_text : (t : Text) (bs : List ContentBlock) → uses (append_text t bs) ≡ uses bs
unfolding uses append_text
uses-append_text t [] = refl
uses-append_text t (text u ∷ []) = refl
uses-append_text t (text u ∷ c ∷ bs) = uses-append_text t (c ∷ bs)
uses-append_text t (tool_use id name input ∷ bs) = ground (arith, uses-append_text t bs)
uses-append_text t (tool_result id output e ∷ bs) = uses-append_text t bs
uses-append_text t (reasoning r ∷ bs) = uses-append_text t bs

pub results-append_text :
    (t : Text) (bs : List ContentBlock) → results (append_text t bs) ≡ results bs
unfolding results append_text
results-append_text t [] = refl
results-append_text t (text u ∷ []) = refl
results-append_text t (text u ∷ c ∷ bs) = results-append_text t (c ∷ bs)
results-append_text t (tool_use id name input ∷ bs) = results-append_text t bs
results-append_text t (tool_result id output e ∷ bs) = ground (arith, results-append_text t bs)
results-append_text t (reasoning r ∷ bs) = results-append_text t bs
