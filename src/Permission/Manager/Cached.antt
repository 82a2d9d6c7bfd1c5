-- ===== src/Permission/Manager/Cached.antt =====
-- What Check returns, on every path.
use workhorse_agent.Prelude.{
  ◌≡◌, refl, ◌⊎◌, inl, inr, Bool, true, false, Option, none, some, Text, arith, Bool-cases,
}
use workhorse_agent.Permission.Rows.{
  Decision, allow_session, allow_permanent, deny, deny_permanent, Store,
}
use workhorse_agent.Permission.Rules.{
  Manager, CheckInput, Env, Outcome, source_prompt, source_timeout, source_none, PromptFunc,
}
use workhorse_agent.Permission.Manager.{
  check, check_cached, cached_outcome, after_cached, prompt_and_persist, apply_answer, settle,
  prompt_with, deadline, request, persist, danger,
}

persist-source :
    (m : Manager) (s : Store) (e : Env) (i : CheckInput) (d : Decision)
    → ((persist m s e i d).0.source ≡ source_prompt) × ((persist m s e i d).0.decision ≡ d)
unfolding persist
persist-source m s e i d = ground arith

apply_answer-source :
    (m : Manager) (s : Store) (e : Env) (i : CheckInput) (d : Decision)
    → ((apply_answer m s e i d).0.source ≡ source_prompt)
      × ((apply_answer m s e i d).0.decision ≡ d)
unfolding apply_answer
apply_answer-source m s e i allow_permanent = persist-source m s e i allow_permanent
apply_answer-source m s e i deny_permanent = persist-source m s e i deny_permanent
apply_answer-source m s e i allow_session = (refl, refl)
apply_answer-source m s e i _ = (refl, refl)

-- How a prompt ends.
abbrev Asked : Manager → Store → Outcome × Manager × Store → Type 0
Asked m s r =
    (r.0.source ≡ source_prompt)
    ⊎ ((r.0.source ≡ source_timeout) ⊎ (r.0.source ≡ source_none))
      × (r.0.decision ≡ deny)
      × (r.1 ≡ m)
      × (r.2 ≡ s)

settle-Asked :
    (m : Manager) (s : Store) (e : Env) (i : CheckInput) (a : Decision × Bool)
    → Asked m s (settle m s e i a)
unfolding settle
settle-Asked m s e i (d, true) = ground (arith, apply_answer-source m s e i d)
settle-Asked m s e i (d, false) = ground arith

prompt_with-Asked :
    (p : Option PromptFunc) (m : Manager) (s : Store) (e : Env) (i : CheckInput) (flagged : Bool)
    (reason : Text)
    → Asked m s (prompt_with p m s e i flagged reason)
unfolding prompt_with
prompt_with-Asked none m s e i flagged reason = ground arith
prompt_with-Asked (some ask) m s e i flagged reason =
    settle-Asked m s e i (ask (deadline m) (request i flagged reason))

-- A call that the danger guard flags is decided by no rule and no default: either the prompt was
-- answered, or the call is denied, as timed out or for want of a prompt, and nothing changes.
pub check-flagged :
    (m : Manager) (s : Store) (e : Env) (i : CheckInput)
    → (danger m i).0 ≡ true
    → ((check m s e i).0.source ≡ source_prompt)
      ⊎ (((check m s e i).0.source ≡ source_timeout) ⊎ ((check m s e i).0.source ≡ source_none))
        × ((check m s e i).0.decision ≡ deny)
        × ((check m s e i).1 ≡ m)
        × ((check m s e i).2 ≡ s)
unfolding check prompt_and_persist
check-flagged m s e i h = rw (h, check) (prompt_with-Asked m.prompt m s e i true (danger m i).1)

abbrev Unanswered : Outcome → Type 0
Unanswered o = (o.source ≡ source_timeout) ⊎ (o.source ≡ source_none) → o.decision ≡ deny

cached_outcome-Unanswered :
    (f : Option Decision × Manager) (s : Store) (i : CheckInput) (o : Outcome)
    → (cached_outcome f s i).0 ≡ some o
    → Unanswered o
unfolding cached_outcome
cached_outcome-Unanswered (some d, m) s i o h = ground arith
cached_outcome-Unanswered (none, m) s i o h = ground arith

after_cached-Unanswered :
    (f : Option Outcome × Manager) (s : Store) (e : Env) (i : CheckInput) (reason : Text)
    → ((o : Outcome) → f.0 ≡ some o → Unanswered o)
    → Unanswered (after_cached f s e i reason).0
unfolding after_cached prompt_and_persist
after_cached-Unanswered (some o, m) s e i reason h = h o refl
after_cached-Unanswered (none, m) s e i reason h =
    ground (arith, (prompt_with-Asked m.prompt m s e i false reason))

unanswered : (m : Manager) (s : Store) (e : Env) (i : CheckInput) → Unanswered (check m s e i).0
unfolding check check_cached prompt_and_persist
unanswered m s e i = elim (Bool-cases (danger m i).0) [
  | inl h ↦ rw (h, check) (ground (arith, prompt_with-Asked m.prompt m s e i true (danger m i).1))
  | inr h ↦
      rw (h, check)
        (after_cached-Unanswered (check_cached m s i) s e i (danger m i).1
          (cached_outcome-Unanswered _ s i))
]

-- No call is ever allowed without a basis: where Check names no rule, no default and no answered
-- prompt as its source, the decision is deny.
pub check-unanswered :
    (m : Manager) (s : Store) (e : Env) (i : CheckInput)
    → ((check m s e i).0.source ≡ source_timeout) ⊎ ((check m s e i).0.source ≡ source_none)
    → (check m s e i).0.decision ≡ deny
check-unanswered m s e i h = unanswered m s e i h
