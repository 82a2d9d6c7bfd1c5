-- ===== src/Agent/Orchestrator/Results.antt =====
-- What a turn's calls return.
use workhorse_agent.Prelude.{
  ◌≡◌, refl, sym, ap, ◌∙◌, Bool, true, false, List, [], ◌∷◌, ◌++◌, map, Option, Text, if◌then◌else◌,
  arith,
}
use mathlib.Core.List.{append_assoc, map-append}
use workhorse_agent.Agent.Orchestrator.{
  ToolCall, ToolBatch, Orchestrator, eligible, serial, run_one, run_slot, run_calls, run_batch,
  apply_modifiers, run_batches, run_all, batch_tools,
}
use workhorse_agent.Agent.Orchestrator.Batches.{all_calls, batch_tools-calls, batch_tools_barrier}

module _ {Target : Type 0} (stopped : ToolCall → Option Text) (o : Orchestrator Target) where
  run_slot-id : (c : ToolCall) (s : Target) → (run_slot stopped o c s).id ≡ c.id
  unfolding run_slot run_one
  run_slot-id c s = ground arith

  run_calls-id :
      (p : Bool) (s : Target) (cs : List ToolCall)
      → map (λ r. r.id) (run_calls (if p then run_slot stopped o else run_one o) s cs)
        ≡ map (λ c. c.id) cs
  unfolding run_calls run_one
  run_calls-id p s [] = refl
  run_calls-id true s (c ∷ cs) = ground (arith, run_slot-id c s, run_calls-id true s cs)
  run_calls-id false s (c ∷ cs) = ground (arith, run_calls-id false s cs)

  run_batches-id :
      (bs : List ToolBatch) (s : Target)
      → map (λ r. r.id) (run_batches stopped o bs s).0 ≡ map (λ c. c.id) (all_calls bs)
  unfolding run_batches all_calls run_batch
  run_batches-id [] s = refl
  run_batches-id (b ∷ bs) s =
      let next = apply_modifiers (run_batch stopped o b s) s in
      map-append (λ r. r.id) (run_batch stopped o b s) (run_batches stopped o bs next).0
      ∙ ap (λ ids. ids ++ map (λ r. r.id) (run_batches stopped o bs next).0)
          (run_calls-id b.parallel s b.calls)
      ∙ ap (λ ids. map (λ c. c.id) b.calls ++ ids) (run_batches-id bs next)
      ∙ sym (map-append (λ c. c.id) b.calls (all_calls bs))

  run_batches-append :
      (bs ds : List ToolBatch) (s : Target)
      → let (r, t) = run_batches stopped o bs s in
        let (q, u) = run_batches stopped o ds t in run_batches stopped o (bs ++ ds) s ≡ (r ++ q, u)
  unfolding run_batches
  run_batches-append [] ds s = refl
  run_batches-append (b ∷ bs) ds s =
      let here = run_batch stopped o b s in
      let next = apply_modifiers here s in
      let (r, t) = run_batches stopped o bs next in
      let (q, u) = run_batches stopped o ds t in
      ap (λ p. (here ++ p.0, p.1)) (run_batches-append bs ds next)
      ∙ ap (λ l. (l, u)) (sym (append_assoc here r q))

  -- Every tool call of a turn gets exactly one result, in the order of the calls, whichever tools
  -- are unknown, fail, panic, time out or are cancelled.
  pub run_all-id :
      (calls : List ToolCall) (s : Target)
      → map (λ r. r.id) (run_all stopped o calls s).0 ≡ map (λ c. c.id) calls
  unfolding run_all
  run_all-id calls s =
      run_batches-id (batch_tools o.registry calls) s
      ∙ ap (map (λ c. c.id)) (batch_tools-calls o.registry calls)

  -- A call of a tool that is not parallel is a barrier: the turn runs as the calls before it, then
  -- it alone, then the calls after it, each part starting from the state that the modifiers of the
  -- part before have left.
  pub run_all_barrier :
      (before after : List ToolCall) (c : ToolCall) (s : Target)
      → eligible o.registry c ≡ false
      → let (r1, s1) = run_all stopped o before s in
        let r2 = run_one o c s1 in
        let (r3, s3) = run_all stopped o after (apply_modifiers (r2 ∷ []) s1) in
        run_all stopped o (before ++ c ∷ after) s ≡ (r1 ++ (r2 ∷ r3), s3)
  unfolding run_all run_batches run_batch run_calls
  run_all_barrier before after c s h =
      ap (λ bs. run_batches stopped o bs s) (batch_tools_barrier o.registry before after c h)
      ∙ run_batches-append (batch_tools o.registry before) (serial c ∷ batch_tools o.registry after)
          s
