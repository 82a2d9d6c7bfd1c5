-- ===== src/Tests/Permission.antt =====
-- The permission manager with a guard that flags `rm` and a prompt that answers for good.
use workhorse_agent.Prelude.{
  ◌≡◌, ◌↔◌, ◌⊎◌, inr, refl, Bool, true, false, ◌&&◌, some, none, List, [], ◌∷◌, Text, Option, some,
  Dict, text_eq, codes, any, lookup, keep_if,
}
use workhorse_agent.Permission.Segment.{segment_match}
use workhorse_agent.Permission.Glob.{match_segs, match_glob, double_star}
use workhorse_agent.Permission.Glob.Meaning.{SegsMatch, match_segs_iff}
use workhorse_agent.Permission.Rows.{
  Decision, Permission, Store, list_permissions, allow_session, allow_permanent, deny,
  deny_permanent, other, permanent,
}
use workhorse_agent.Permission.Rules.{
  Manager, PromptFunc, CheckInput, Env, match_permanent_rule, source_rule, source_prompt,
  source_timeout, source_none,
}
use workhorse_agent.Permission.Manager.{check}
use workhorse_agent.Permission.Manager.Cached.{check-flagged, check-unanswered}
use workhorse_agent.Permission.Manager.Permanent.{match_permanent_rule-denied_iff, visible, denies}
use workhorse_agent.Permission.Manager.Isolation.{check-other_sessions}
use workhorse_agent.Permission.Manager.Denials.{deny_permanent-persists}
use workhorse_agent.Permission.Manager.History.{
  Change, checks, saves, deletes, answers, spares, run, step,
}
use workhorse_agent.Permission.Gate.{Gate, check_calls}
use workhorse_agent.Agent.Orchestrator.{ToolCall}
use workhorse_agent.Permission.Gate.Audit.{Books, check_calls-Books}
use workhorse_agent.Session.State.{thinking}

abbrev answer_with : Decision → PromptFunc
answer_with d deadline r = (d, true)

abbrev bash : Text
bash = 1 ∷ []

abbrev rm : Text
rm = 2 ∷ []

abbrev ls : Text
ls = 3 ∷ []

abbrev guard : Text → Text → Bool × Text
guard tool resource = (text_eq resource rm, [])

abbrev manager : Decision → Manager
manager d = record {
  prompt = some (answer_with d);
  dangerous = some guard;
  timeout = 60;
  default_decision = other [];
  session_rules = [];
}

abbrev silent : Manager
silent = record {
  prompt = none;
  dangerous = some guard;
  timeout = 60;
  default_decision = allow_session;
  session_rules = [];
}

abbrev allow_ls : Permission
allow_ls = record {
  id = 7 ∷ [];
  session_id = [];
  tool = bash;
  pattern = ls;
  decision = allow_permanent;
  scope = permanent;
  created_at = 1;
}

abbrev deny_ls : Permission
deny_ls = record allow_ls { id = 8 ∷ []; decision = deny_permanent; created_at = 2 }

abbrev store : List Permission → Store
store ps = record { permissions = ps; reads = true; writes = true }

abbrev env : Env
env = record { rand = some (9 ∷ []); now = 5 }

abbrev call : Text → CheckInput
call resource = record { session_id = 4 ∷ []; request_id = []; tool = bash; resource = resource }

check-flagged_example :
    ((check silent (store []) env (call rm)).0.source ≡ source_prompt)
    ⊎ (((check silent (store []) env (call rm)).0.source ≡ source_timeout)
        ⊎ ((check silent (store []) env (call rm)).0.source ≡ source_none))
      × ((check silent (store []) env (call rm)).0.decision ≡ deny)
      × ((check silent (store []) env (call rm)).1 ≡ silent)
      × ((check silent (store []) env (call rm)).2 ≡ store [])
unfolding text_eq
check-flagged_example = check-flagged silent (store []) env (call rm) refl

check-unanswered_example : (check silent (store []) env (call rm)).0.decision ≡ deny
unfolding check text_eq
check-unanswered_example = check-unanswered silent (store []) env (call rm) (inr refl)

match_permanent_rule-denied_iff_example :
    (match_permanent_rule (store (allow_ls ∷ deny_ls ∷ [])) [] bash ls ≡ some (some deny_permanent))
    ↔ (any (λ p. visible [] p && denies bash ls p) (allow_ls ∷ deny_ls ∷ []) ≡ true)
match_permanent_rule-denied_iff_example =
    match_permanent_rule-denied_iff (store (allow_ls ∷ deny_ls ∷ [])) [] bash ls refl

-- Later the API allows the call, another session allows it for good, and a rule is deleted.
abbrev later : List Change
later =
    saves (record allow_ls { created_at = 8 })
    ∷ checks (manager allow_permanent) (record env { rand = some (6 ∷ []) }) (call rm)
    ∷ deletes (3 ∷ [])
    ∷ answers false false
    ∷ answers true true
    ∷ []

abbrev now_denied : Store
now_denied = run later (check (manager deny_permanent) (store []) env (call ls)).2

deny_permanent-persists_example :
    (check
      (manager allow_session)
      now_denied
      env
      (record (call ls) { session_id = 5 ∷ []; request_id = 6 ∷ [] })).0
    ≡ record { decision = deny_permanent; source = source_rule; error = none }
unfolding text_eq check lookup list_permissions keep_if spares run step
deny_permanent-persists_example =
    deny_permanent-persists (manager deny_permanent) (manager allow_session) (store []) env env
      (call ls) (answer_with deny_permanent) (9 ∷ []) (5 ∷ []) (6 ∷ []) later refl refl refl refl
      refl refl (refl, tt) (refl, tt) (refl, (refl, (refl, (refl, (refl, tt))))) refl refl refl

check-other_sessions_example :
    lookup (5 ∷ []) (check (manager allow_session) (store []) env (call ls)).1.session_rules
    ≡ lookup (5 ∷ []) (manager allow_session).session_rules
check-other_sessions_example =
    check-other_sessions (manager allow_session) (store []) env (call ls) (5 ∷ []) (λ e. cc)

match_segs_iff_example :
    (match_segs (bash ∷ []) (bash ∷ []) ≡ true) ↔ SegsMatch (bash ∷ []) (bash ∷ [])
match_segs_iff_example = match_segs_iff (bash ∷ []) (bash ∷ [])

match_glob_runs : match_glob (codes "src/**/*.go") (codes "src/a/b/c.go") ≡ true
unfolding match_glob codes text_eq double_star segment_match
match_glob_runs = refl

-- Every input names one path.
abbrev parse : Text → Option (Dict (Option Text))
parse input = some ((4 ∷ [], some input) ∷ [])

abbrev start : Gate
start = record {
  manager = manager allow_session;
  store = store (deny_ls ∷ []);
  state = thinking;
  await_entered = false;
  cleared = [];
  denied = [];
  events = [];
}

abbrev turn : List ToolCall
turn =
    record { id = 1 ∷ []; name = bash; input = ls }
    ∷ record { id = 2 ∷ []; name = ls; input = ls }
    ∷ []

check_calls-Books_example :
    Books (λ n. text_eq n ls) (check_calls parse (4 ∷ []) (λ n. text_eq n ls) (λ c. env) start turn)
unfolding keep_if
check_calls-Books_example =
    check_calls-Books parse (4 ∷ []) (λ n. text_eq n ls) (λ c. env) start turn
      (record { refused = refl; passed = refl })
