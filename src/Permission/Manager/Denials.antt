-- ===== src/Permission/Manager/Denials.antt =====
-- What a denial for good does to later checks.
use workhorse_agent.Prelude.{
  ◌≡◌, refl, ◌∙◌, ap, true, false, ◌&&◌, List, [], ◌∷◌, ◌++◌, none, some, Text, text_eq,
  text_eq_self, sym, All, arith, if◌then◌else◌, any, any-append, keep_if, not,
}
use workhorse_agent.Permission.Segment.Plain.{IsPlain}
use workhorse_agent.Permission.Rows.{
  Decision, deny_permanent, permanent, Store, Permission, save_permission,
}
use workhorse_agent.Permission.Rules.{
  Manager, CheckInput, Env, PromptFunc, source_rule, match_session_rule, take_match, taken,
  rules_of, save_permanent, match_permanent_rule, row_rule,
}
use workhorse_agent.Permission.Manager.{
  stored_outcome, cached_outcome, check_cached, after_cached, prompt_and_persist, apply_answer,
  persist, after_save, check, danger, deadline, request,
}
use mathlib.Core.Path.{subst}
use workhorse_agent.Permission.Manager.History.{
  Change, spares, run, Denying, Denying-any, run-Denying,
}
use workhorse_agent.Permission.Manager.Permanent.{match_permanent_rule-denied_iff, visible, denies}
use workhorse_agent.Permission.Manager.Answers.{match_tool_resource_self, answered}

saved_row : Env → CheckInput → Decision → Text → Permission
saved_row e i d id = record {
  id = id;
  session_id = [];
  tool = i.tool;
  pattern = i.resource;
  decision = d;
  scope = permanent;
  created_at = e.now;
}

saved-denied :
    (s : Store) (e : Env) (i : CheckInput) (id k : Text)
    → IsPlain i.tool
    → IsPlain i.resource
    → Denying id k i.tool i.resource (record s {
      permissions =
          keep_if (λ q. not (text_eq q.id id)) s.permissions
          ++ saved_row e i deny_permanent id ∷ [];
    })
unfolding any saved_row
saved-denied s e i id k ht hr = ground (
  arith,
  any-append (λ p. text_eq p.id id && (visible k p && denies i.tool i.resource p))
      (keep_if (λ q. not (text_eq q.id id)) s.permissions) (saved_row e i deny_permanent id ∷ []),
  text_eq_self id,
  match_tool_resource_self i (row_rule (saved_row e i deny_permanent id)) refl refl ht hr,
)

check-denied_row :
    (n : Manager) (s : Store) (e : Env) (i : CheckInput)
    → (danger n i).0 ≡ false
    → take_match i.tool i.resource (rules_of n i.session_id) ≡ none
    → match_permanent_rule s i.session_id i.tool i.resource ≡ some (some deny_permanent)
    → (check n s e i).0 ≡ record { decision = deny_permanent; source = source_rule; error = none }
unfolding check after_cached check_cached match_session_rule cached_outcome taken stored_outcome
check-denied_row n s e i calm none_taken found =
    ap
      (λ b.
        (if b
          then prompt_and_persist n s e i true (danger n i).1
          else after_cached (check_cached n s i) s e i (danger n i).1).0)
      calm
    ∙ ap (λ t. (after_cached (cached_outcome (taken n i.session_id t) s i) s e i (danger n i).1).0)
        none_taken
    ∙ ap (λ f. (after_cached (stored_outcome f n, n) s e i (danger n i).1).0) found

with_row : Store → Permission → Store
with_row s p = record s {
  permissions = keep_if (λ q. not (text_eq q.id p.id)) s.permissions ++ p ∷ [];
}

save_permanent-saved :
    (s : Store) (e : Env) (i : CheckInput) (d : Decision) (id : Text)
    → e.rand ≡ some id
    → s.writes ≡ true
    → save_permanent e i.tool i.resource d s ≡ (none, with_row s (saved_row e i d id))
unfolding save_permanent save_permission with_row saved_row
save_permanent-saved s e i d id rand w = ground arith

-- The row of a deny_permanent answer, whoever looks.
denied_after :
    (m : Manager) (s : Store) (e : Env) (i : CheckInput) (ask : PromptFunc) (id k : Text)
    → (danger m i).0 ≡ false
    → (check_cached m s i).0 ≡ none
    → m.prompt ≡ some ask
    → ask (deadline m) (request i false (danger m i).1) ≡ (deny_permanent, true)
    → e.rand ≡ some id
    → s.writes ≡ true
    → IsPlain i.tool
    → IsPlain i.resource
    → Denying id k i.tool i.resource (check m s e i).2
unfolding apply_answer persist after_save with_row saved_row
denied_after m s e i ask id k calm unknown asks answer rand w ht hr =
    subst (Denying id k i.tool i.resource)
      (sym (
        ap (λ t. t.2) (answered m s e i ask deny_permanent calm unknown asks answer)
        ∙ ap (λ t. (after_save t m i deny_permanent).2)
            (save_permanent-saved s e i deny_permanent id rand w)))
      (saved-denied s e i id k ht hr)

-- A deny_permanent answer that is saved holds from then on: after any sequence of changes to the
-- store that neither delete its row nor write one under its id (other checks with whatever they
-- save, rules that the API adds or deletes, allowances included, a database that fails and comes
-- back), every manager over the store denies every session's call of that tool on that resource by
-- rule, where the store can be read, unless the session has a rule of its own for it or the guard
-- flags the call. Neither the tool's name nor the resource holds a glob metacharacter.
pub deny_permanent-persists :
    (m n : Manager) (s : Store) (e e' : Env) (i : CheckInput) (ask : PromptFunc) (id k again : Text)
    (changes : List Change)
    → (danger m i).0 ≡ false
    → (check_cached m s i).0 ≡ none
    → m.prompt ≡ some ask
    → ask (deadline m) (request i false (danger m i).1) ≡ (deny_permanent, true)
    → e.rand ≡ some id
    → s.writes ≡ true
    → IsPlain i.tool
    → IsPlain i.resource
    → All (λ c. spares id c ≡ true) changes
    → (run changes (check m s e i).2).reads ≡ true
    → (danger n i).0 ≡ false
    → take_match i.tool i.resource (rules_of n k) ≡ none
    → (check n
        (run changes (check m s e i).2)
        e'
        (record i { session_id = k; request_id = again })).0
      ≡ record { decision = deny_permanent; source = source_rule; error = none }
deny_permanent-persists m n s e e' i ask id k again changes calm unknown asks answer rand w ht hr
      spared r calm' fresh =
    let s' = run changes (check m s e i).2 in
    check-denied_row n s' e' (record i { session_id = k; request_id = again }) calm' fresh
      ((match_permanent_rule-denied_iff s' k i.tool i.resource r).1 (
        Denying-any id k i.tool i.resource s' (
          run-Denying id k i.tool i.resource changes (check m s e i).2 spared
            (denied_after m s e i ask id k calm unknown asks answer rand w ht hr))))
