-- ===== src/Permission/Gate/Audit.antt =====
-- The gate's books: no call is lost, none passes without a decision, and the audit events say so.
use workhorse_agent.Prelude.{
  ◌+◌, ◌≡◌, Bool, true, false, List, [], ◌∷◌, ◌++◌, Text, Option, Dict, length, length-append,
  arith, inl, inr, Bool-cases, keep_if, not, map, map-keep_if-snoc,
}
use mathlib.Core.List.{map-append}
use workhorse_agent.Permission.Rows.{Store}
use workhorse_agent.Permission.Rules.{Manager, Env, Outcome}
use workhorse_agent.Permission.Manager.{check}
use workhorse_agent.Permission.Gate.{
  Gate, Resolved, is_denial, is_refused, event_decision, enter_await, resolve, check_input,
  check_call, check_calls,
}
use workhorse_agent.Agent.Orchestrator.{ToolCall}

-- The audit event's decision is a denial exactly where the call is refused.
event_decision-denial : (o : Outcome) → is_denial (event_decision o) ≡ is_refused o
unfolding event_decision
event_decision-denial o = ground arith

-- The calls refused are those whose event says deny, in order, and the calls passed on are those
-- whose event does not, besides the tools that gate themselves.
pub record Books (internal_gated : Text → Bool) (g : Gate) : Type 0 where
  pub refused :
      map (λ c. c.id) g.denied
      ≡ map (λ r. r.request_id) (keep_if (λ r. is_denial r.decision) g.events)
  pub passed :
      map (λ c. c.id) (keep_if (λ c. not (internal_gated c.name)) g.cleared)
      ≡ map (λ r. r.request_id) (keep_if (λ r. not (is_denial r.decision)) g.events)

module _ (internal_gated : Text → Bool) where
  enter_await-Books : (g : Gate) → Books internal_gated g → Books internal_gated (enter_await g)
  unfolding enter_await
  enter_await-Books g b = ground arith

  resolve-Books :
      (g : Gate) (c : ToolCall) (r : Outcome × Manager × Store)
      → internal_gated c.name ≡ false
      → Books internal_gated g
      → Books internal_gated (resolve g c r)
  unfolding resolve
  resolve-Books g c (o, m, s) n b =
      let e : Resolved = record {
        request_id = c.id;
        tool = c.name;
        decision = event_decision o;
        source = o.source;
      } in
      ground (
        arith,
        n,
        event_decision-denial o,
        map-keep_if-snoc (λ r. r.request_id) (λ r. is_denial r.decision) g.events e,
        map-keep_if-snoc (λ r. r.request_id) (λ r. not (is_denial r.decision)) g.events e,
        map-append (λ c. c.id) g.denied (c ∷ []),
        map-keep_if-snoc (λ c. c.id) (λ c. not (internal_gated c.name)) g.cleared c,
      )

  gated-Books :
      (g : Gate) (c : ToolCall)
      → internal_gated c.name ≡ true
      → Books internal_gated g
      → Books internal_gated (record g { cleared = g.cleared ++ c ∷ [] })
  gated-Books g c n b =
      ground (arith, n, map-keep_if-snoc (λ c. c.id) (λ c. not (internal_gated c.name)) g.cleared c)

module _ (parse : Text → Option (Dict (Option Text))) (session_id : Text)
    (internal_gated : Text → Bool) (env : ToolCall → Env) where
  check_call-Books :
      (g : Gate) (c : ToolCall)
      → Books internal_gated g
      → Books internal_gated (check_call parse session_id internal_gated env g c)
  unfolding check_call
  check_call-Books g c b = elim (Bool-cases (internal_gated c.name)) [
    | inl n ↦ rw (n, check_call) (gated-Books internal_gated g c n b)
    | inr n ↦
        rw (n, check_call)
          (resolve-Books internal_gated (enter_await g) c _ n
            (enter_await-Books internal_gated g b))
  ]

  -- Every turn's audit trail is exact: the calls refused are those whose permission_resolved event
  -- says deny or deny_permanent, and the calls passed on are those whose event says otherwise,
  -- besides the tools that gate themselves; both in the order of the calls, for any manager, store
  -- and answers, errors included.
  pub check_calls-Books :
      (g : Gate) (cs : List ToolCall)
      → Books internal_gated g
      → Books internal_gated (check_calls parse session_id internal_gated env g cs)
  unfolding check_calls
  check_calls-Books g [] b = b
  check_calls-Books g (c ∷ cs) b =
      check_calls-Books (check_call parse session_id internal_gated env g c) cs
        (check_call-Books g c b)

  length-resolve :
      (g : Gate) (c : ToolCall) (r : Outcome × Manager × Store)
      → length (resolve g c r).cleared + length (resolve g c r).denied
        ≡ length g.cleared + length g.denied + 1
  unfolding resolve
  length-resolve g c (o, m, s) =
      ground (arith, length-append g.cleared (c ∷ []), length-append g.denied (c ∷ []))

  length-enter_await :
      (g : Gate)
      → length (enter_await g).cleared + length (enter_await g).denied
        ≡ length g.cleared + length g.denied
  unfolding enter_await
  length-enter_await g = ground arith

  length-check_call :
      (g : Gate) (c : ToolCall)
      → let g' = check_call parse session_id internal_gated env g c in
        length g'.cleared + length g'.denied ≡ length g.cleared + length g.denied + 1
  unfolding check_call
  length-check_call g c = ground (
    arith,
    length-append g.cleared (c ∷ []),
    length-enter_await g,
    length-resolve (enter_await g) c
        (check g.manager g.store (env c) (check_input parse session_id internal_gated env c)),
  )

  -- No call is lost: each one is passed on or refused, never both.
  pub length-check_calls :
      (g : Gate) (cs : List ToolCall)
      → let g' = check_calls parse session_id internal_gated env g cs in
        length g'.cleared + length g'.denied ≡ length g.cleared + length g.denied + length cs
  unfolding check_calls
  length-check_calls g [] = omega arith
  length-check_calls g (c ∷ cs) = omega (
    arith,
    length-check_call g c,
    length-check_calls (check_call parse session_id internal_gated env g c) cs,
  )
