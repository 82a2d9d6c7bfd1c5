-- ===== src/Agent/Orchestrator/Batches.antt =====
-- How a turn's calls are batched.
use workhorse_agent.Prelude.{
  ◌≡◌, refl, sym, ap, ◌∙◌, Bool, true, false, ◌&&◌, not, List, [], ◌∷◌, ◌++◌, length, ◌==◌, any,
  any-append, Dict, Bool-cases, inl, inr, arith, if◌then◌else◌,
}
use mathlib.Core.List.{append_assoc, append-nil}
use workhorse_agent.Tools.Registry.{Tool}
use workhorse_agent.Agent.Orchestrator.{
  ToolCall, ToolBatch, eligible, flush_par, serial, batch_from, batch_tools,
}

unfoldable pub all_calls : List ToolBatch → List ToolCall
all_calls [] = []
all_calls (b ∷ bs) = b.calls ++ all_calls bs

flush_par-calls :
    (par : List ToolCall) (bs : List ToolBatch)
    → all_calls (flush_par par ++ bs) ≡ par ++ all_calls bs
unfolding flush_par all_calls
flush_par-calls [] bs = refl
flush_par-calls (c ∷ cs) bs = refl

module _ {Target : Type 0} (reg : Dict (Tool Target)) where
  batch_from-calls :
      (par calls : List ToolCall) → all_calls (batch_from reg par calls) ≡ par ++ calls
  unfolding batch_from all_calls
  batch_from-calls par [] = ap all_calls (sym (append-nil (flush_par par))) ∙ flush_par-calls par []
  batch_from-calls par (c ∷ cs) = elim (Bool-cases (eligible reg c)) [
    | inl e ↦
        rw (e, batch_from, all_calls)
          (batch_from-calls (par ++ c ∷ []) cs ∙ append_assoc par (c ∷ []) cs)
    | inr e ↦
        rw (e, batch_from, all_calls)
          (flush_par-calls par (serial c ∷ batch_from reg [] cs)
            ∙ ap (λ rest. par ++ c ∷ rest) (batch_from-calls [] cs))
  ]

  -- Batching loses no call, invents none and keeps their order.
  pub batch_tools-calls : (calls : List ToolCall) → all_calls (batch_tools reg calls) ≡ calls
  unfolding batch_tools
  batch_tools-calls calls = batch_from-calls [] calls

  -- A parallel batch is not empty, holds calls of parallel tools only and does not follow another
  -- parallel batch; any other batch is one call of a tool that is not parallel.
  unfoldable pub well_made : Bool → ToolBatch → Bool
  unfolding any
  well_made after b =
      if b.parallel
      then not after && not (length b.calls == 0) && not (any (λ c. not (eligible reg c)) b.calls)
      else (length b.calls == 1) && any (λ c. not (eligible reg c)) b.calls

  unfoldable pub well_batched : Bool → List ToolBatch → Bool
  unfolding well_made
  well_batched after [] = true
  well_batched after (b ∷ bs) = well_made after b && well_batched b.parallel bs

  well_batched-flush_par :
      (par : List ToolCall) (after : Bool) (bs : List ToolBatch)
      → any (λ c. not (eligible reg c)) par ≡ false
      → after ≡ false
      → well_batched true bs ≡ true
      → well_batched false bs ≡ true
      → well_batched after (flush_par par ++ bs) ≡ true
  unfolding well_batched flush_par well_made any
  well_batched-flush_par [] after bs h ha ht hf = ground (arith, ha, ht, hf)
  well_batched-flush_par (c ∷ cs) after bs h ha ht hf = ground (arith, h, ha, ht, hf)

  still_eligible :
      (par : List ToolCall) (c : ToolCall)
      → any (λ d. not (eligible reg d)) par ≡ false
      → eligible reg c ≡ true
      → any (λ d. not (eligible reg d)) (par ++ c ∷ []) ≡ false
  unfolding any
  still_eligible par c h e =
      ground (arith, h, e, any-append (λ d. not (eligible reg d)) par (c ∷ []))

  well_batched-serial :
      (c : ToolCall) (bs : List ToolBatch)
      → eligible reg c ≡ false
      → (after : Bool) → well_batched false bs ≡ true
      → well_batched after (serial c ∷ bs) ≡ true
  unfolding well_batched well_made any
  well_batched-serial c bs e after h = ground (arith, e, h)

  batch_from-well_batched :
      (par calls : List ToolCall) (after : Bool)
      → any (λ c. not (eligible reg c)) par ≡ false
      → after ≡ false
      → well_batched after (batch_from reg par calls) ≡ true
  unfolding batch_from well_batched
  batch_from-well_batched par [] after h ha =
      ap (well_batched after) (sym (append-nil (flush_par par)))
      ∙ well_batched-flush_par par after [] h ha refl refl
  batch_from-well_batched par (c ∷ cs) after h ha = elim (Bool-cases (eligible reg c)) [
    | inl e ↦
        rw (e, batch_from, well_batched)
          (batch_from-well_batched (par ++ c ∷ []) cs after (still_eligible par c h e) ha)
    | inr e ↦
        let rest = well_batched-serial c (batch_from reg [] cs) e in
        let ih = batch_from-well_batched [] cs false refl refl in
        rw (e, batch_from)
          (well_batched-flush_par par after (serial c ∷ batch_from reg [] cs) h ha (rest true ih)
            (rest false ih))
  ]

  batch_from_barrier :
      (par before after : List ToolCall) (c : ToolCall)
      → eligible reg c ≡ false
      → batch_from reg par (before ++ c ∷ after)
        ≡ batch_from reg par before ++ (serial c ∷ batch_tools reg after)
  unfolding batch_from batch_tools
  batch_from_barrier par [] after c h = rw (h, batch_from) refl
  batch_from_barrier par (b ∷ before) after c h = elim (Bool-cases (eligible reg b)) [
    | inl e ↦ rw (e, batch_from) (batch_from_barrier (par ++ b ∷ []) before after c h)
    | inr e ↦
        rw (e, batch_from)
          (ap (λ bs. flush_par par ++ serial b ∷ bs) (batch_from_barrier [] before after c h)
            ∙ sym (
                append_assoc (flush_par par) (serial b ∷ batch_from reg [] before)
                  (serial c ∷ batch_tools reg after)))
  ]

  -- The batches have the shape that the executor relies on: no batch is empty, a parallel batch
  -- holds calls of parallel tools only and never follows another parallel batch, and a call of
  -- any other tool, or of none, is alone in its batch.
  pub batch_tools-well_batched :
      (calls : List ToolCall) → well_batched false (batch_tools reg calls) ≡ true
  unfolding batch_tools any
  batch_tools-well_batched calls = batch_from-well_batched [] calls false refl refl

  pub batch_tools_barrier :
      (before after : List ToolCall) (c : ToolCall)
      → eligible reg c ≡ false
      → batch_tools reg (before ++ c ∷ after)
        ≡ batch_tools reg before ++ (serial c ∷ batch_tools reg after)
  unfolding batch_tools
  batch_tools_barrier before after c h = batch_from_barrier [] before after c h
