-- ===== src/Agent/Loop/Settled.antt =====
-- What a batch of tools keeps: it answers what its session owes.
use workhorse_agent.Prelude.{
  ◌≡◌, refl, sym, ap, ◌∙◌, Bool, true, false, if◌then◌else◌, List, [], ◌∷◌, none, some, Text, map,
  any, arith, Dict,
}
use mathlib.Core.Path.{subst}
use workhorse_agent.Provider.Pairing.{uses, results, has, SameIds, Follows, Paired, Follows-snoc}
use workhorse_agent.Session.State.{
  State, idle, thinking, await_perm, executing, compacting, cancelled as turn_cancelled, transition,
  force_transition, same_state, allowed_transitions,
}
use workhorse_agent.Session.History.{Session, append_message, clear_tool_use_pending}
use workhorse_agent.Session.History.Pending.{
  ids, KeyedById, delete-KeyedById, has-delete, ids-empty,
}
use workhorse_agent.Tools.Registry.{Result}
use workhorse_agent.Agent.Orchestrator.{ToolCall}
use workhorse_agent.Agent.Loop.{World, move}
use workhorse_agent.Agent.Loop.Batch.{clear_all, result_block, finish_run, output_of}
use workhorse_agent.Agent.Loop.Turn.{force}
use workhorse_agent.Agent.Loop.Owed.{Owes, Rests, call_ids}

-- A change of state alone.
pub move-same :
    (P : Session → Type 0) (from to : State) (s : Session)
    → ((x : State) → P (record s { state = x }))
    → P s
    → P (move from to s)
unfolding move
move-same P from to s f h =
    elim (transition s.state from to)
      as (λ o. P (elim o [ none ↦ s | some x ↦ record s { state = x } ])) [
        | none ↦ h
        | some x ↦ f x
      ]

pub move-Owes : (from to : State) (s : Session) → Owes s → Owes (move from to s)
move-Owes from to s h = move-same Owes from to s (λ x. h) h

pub move-Rests : (from to : State) (s : Session) → Rests s → Rests (move from to s)
move-Rests from to s h = move-same Rests from to s (λ x. h) h

pub force-same :
    (P : Session → Type 0) (to : State) (s : Session)
    → ((x : State) → P (record s { state = x }))
    → P s
    → P (force to s)
unfolding force
force-same P to s f h =
    elim (same_state s.state to)
      as (λ b. P (
        if b then s else elim (force_transition s.state to) as (λ o. Session) [
          | none ↦ s
          | some x ↦ record s { state = x }
        ])) [
          | true ↦ h
          | false ↦
              elim (force_transition s.state to)
                as (λ o.
                  P (elim o as (λ o. Session) [ none ↦ s | some x ↦ record s { state = x } ])) [
                    | none ↦ h
                    | some x ↦ f x
                  ]
        ]

pub force-Rests : (to : State) (s : Session) → Rests s → Rests (force to s)
force-Rests to s h = force-same Rests to s (λ x. h) h

clear_all-history : (cs : List ToolCall) (s : Session) → (clear_all cs s).history ≡ s.history
unfolding clear_all clear_tool_use_pending
clear_all-history [] s = refl
clear_all-history (c ∷ cs) s = clear_all-history cs (clear_tool_use_pending s c.id)

-- What is left pending after the calls are cleared.
clear_all-pending :
    (cs : List ToolCall) (s : Session)
    → KeyedById s.pending
    → (j : Text)
    → has (ids (clear_all cs s).pending) j
      ≡ (if has (call_ids cs) j then false else has (ids s.pending) j)
unfolding clear_all clear_tool_use_pending has any
clear_all-pending [] s k j = refl
clear_all-pending (c ∷ cs) s k j = ground (
  arith,
  clear_all-pending cs (clear_tool_use_pending s c.id) (delete-KeyedById c.id s.pending k) j,
  has-delete c.id s.pending k j,
)

clear_all-empty :
    (cs : List ToolCall) (s : Session)
    → KeyedById s.pending
    → SameIds (ids s.pending) (call_ids cs)
    → (clear_all cs s).pending ≡ []
clear_all-empty cs s k e =
    ids-empty (clear_all cs s).pending (λ j. ground (arith, clear_all-pending cs s k j, e j))

module _ (f : ToolCall → Text × Bool) where
  results-blocks :
      (cs : List ToolCall) → results (map (λ c. result_block c.id (f c)) cs) ≡ call_ids cs
  unfolding results
  results-blocks [] = refl
  results-blocks (c ∷ cs) = ground (arith, results-blocks cs)

  uses-blocks : (cs : List ToolCall) → uses (map (λ c. result_block c.id (f c)) cs) ≡ []
  unfolding uses
  uses-blocks [] = refl
  uses-blocks (c ∷ cs) = uses-blocks cs

pub finish_run-Rests :
    {Target : Type 0} (m : Dict (Result Target)) (cs : List ToolCall) (w : World Target)
    → Owes w.session
    → SameIds (ids w.session.pending) (call_ids cs)
    → Rests (finish_run m cs w).session
unfolding finish_run append_message Paired
finish_run-Rests m cs w (k, f) e = (
  clear_all-empty cs w.session k e,
  subst (Follows [] _) (uses-blocks (output_of m) cs) (
      Follows-snoc [] (clear_all cs w.session).history (ids w.session.pending) _
        (subst (λ h. Follows [] h (ids w.session.pending)) (sym (clear_all-history cs w.session)) f)
        (λ j. e j ∙ ap (λ xs. has xs j) (sym (results-blocks (output_of m) cs)))),
)

pub force-idle : (s : Session) → (force idle s).state ≡ idle
unfolding force force_transition allowed_transitions same_state
force-idle s = elim s.state as (λ x. (force idle (record s { state = x })).state ≡ idle) [
  | idle ↦ refl
  | thinking ↦ refl
  | await_perm ↦ refl
  | executing ↦ refl
  | compacting ↦ refl
  | turn_cancelled ↦ refl
]
