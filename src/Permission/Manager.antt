-- ===== src/Permission/Manager.antt =====
-- internal/permission/manager.go: Check. The mutex makes each method one step on the record
-- `Manager`.
pub mod Permanent
pub mod Cached
pub mod Isolation
pub mod History
pub mod Answers
pub mod Denials
use workhorse_agent.Prelude.{
  ℕ, Bool, true, false, ◌&&◌, ◌||◌, not, List, [], ◌∷◌, ◌++◌, Option, none, some, Text, is_empty,
  ltb, if◌then◌else◌, Dict, lookup, insert,
}
use workhorse_agent.Permission.Glob.{match_glob}
use workhorse_agent.Permission.Rows.{
  Decision, allow_once, allow_session, allow_permanent, deny, deny_permanent, other, Scope, once,
  session, permanent, other_scope, Permission, Store, save_permission, list_permissions,
}
use workhorse_agent.Permission.Rules.{
  CheckError, CheckInput, Env, Manager, Outcome, PromptFunc, Request, Rule, Source, add_session,
  grant_session, is_deny_permanent, is_once, is_permanent, is_unset, list_failed,
  match_permanent_rule, match_session_rule, match_tool_resource, new_manager, note_allow, or_empty,
  rand_failed, row_applies, row_rule, rules_of, save_failed, save_permanent, scan_rows,
  set_default_decision, set_timeout, source_default, source_none, source_prompt, source_rule,
  source_timeout, take_match, taken, timed_out,
}

abbrev pub session_rule : CheckInput → Decision → Rule
session_rule i d = record { pattern = i.resource; tool = i.tool; decision = d; scope = session }

-- A rule that could not be saved holds for the session.
unfoldable pub after_save :
    Option CheckError × Store → Manager → CheckInput → Decision → Outcome × Manager × Store
unfolding add_session
after_save (none, s) m i d = (record { decision = d; source = source_prompt; error = none }, m, s)
after_save (some x, s) m i d = (
  record { decision = d; source = source_prompt; error = some x },
  add_session i.session_id (session_rule i d) m,
  s,
)

-- The cases AllowPermanent and DenyPermanent.
unfoldable pub persist : Manager → Store → Env → CheckInput → Decision → Outcome × Manager × Store
unfolding save_permanent after_save
persist m s e i d = after_save (save_permanent e i.tool i.resource d s) m i d

-- The switch on an answered prompt.
unfoldable pub apply_answer :
    Manager → Store → Env → CheckInput → Decision → Outcome × Manager × Store
unfolding persist
apply_answer m s e i allow_session = (
  record { decision = allow_session; source = source_prompt; error = none },
  add_session i.session_id (session_rule i allow_session) m,
  s,
)
apply_answer m s e i allow_permanent = persist m s e i allow_permanent
apply_answer m s e i deny_permanent = persist m s e i deny_permanent
apply_answer m s e i d = (record { decision = d; source = source_prompt; error = none }, m, s)

-- What follows the callback's return.
unfoldable pub settle :
    Manager → Store → Env → CheckInput → Decision × Bool → Outcome × Manager × Store
unfolding apply_answer
settle m s e i (d, true) = apply_answer m s e i d
settle m s e i (d, false) =
    (record { decision = deny; source = source_timeout; error = some timed_out }, m, s)

abbrev pub deadline : Manager → Option ℕ
deadline m = if ltb 0 m.timeout then some m.timeout else none

abbrev pub request : CheckInput → Bool → Text → Request
request i flagged reason = record {
  session_id = i.session_id;
  request_id = i.request_id;
  tool = i.tool;
  resource = i.resource;
  dangerous = flagged;
  reason = reason;
}

unfoldable pub prompt_with :
    Option PromptFunc → Manager → Store → Env → CheckInput → Bool → Text → Outcome × Manager × Store
unfolding settle
prompt_with none m s e i flagged reason =
    (record { decision = deny; source = source_none; error = none }, m, s)
prompt_with (some ask) m s e i flagged reason =
    settle m s e i (ask (deadline m) (request i flagged reason))

unfoldable pub prompt_and_persist :
    Manager → Store → Env → CheckInput → Bool → Text → Outcome × Manager × Store
unfolding prompt_with
prompt_and_persist m s e i flagged reason = prompt_with m.prompt m s e i flagged reason

-- Step 4: the configured default, if it is set.
unfoldable pub default_outcome : Manager → Option Outcome
default_outcome m =
    if is_unset m.default_decision
    then none
    else some (record { decision = m.default_decision; source = source_default; error = none })

-- Steps 3 and 4, on what the store answers.
unfoldable pub stored_outcome : Option (Option Decision) → Manager → Option Outcome
unfolding default_outcome
stored_outcome none m =
    some (record { decision = deny; source = source_none; error = some list_failed })
stored_outcome (some (some d)) m =
    some (record { decision = d; source = source_rule; error = none })
stored_outcome (some none) m = default_outcome m

-- Steps 2 to 4 of Check, for a call that the guard does not flag; `none` goes on to the prompt.
unfoldable pub cached_outcome :
    Option Decision × Manager → Store → CheckInput → Option Outcome × Manager
unfolding stored_outcome match_permanent_rule
cached_outcome (some d, m) s i =
    (some (record { decision = d; source = source_rule; error = none }), m)
cached_outcome (none, m) s i =
    (stored_outcome (match_permanent_rule s i.session_id i.tool i.resource) m, m)

unfoldable pub check_cached : Manager → Store → CheckInput → Option Outcome × Manager
unfolding cached_outcome match_session_rule
check_cached m s i = cached_outcome (match_session_rule m i.session_id i.tool i.resource) s i

abbrev pub danger : Manager → CheckInput → Bool × Text
danger m i = elim m.dangerous [ none ↦ (false, []) | some guard ↦ guard i.tool i.resource ]

unfoldable pub after_cached :
    Option Outcome × Manager → Store → Env → CheckInput → Text → Outcome × Manager × Store
unfolding prompt_and_persist
after_cached (some o, m) s e i reason = (o, m, s)
after_cached (none, m) s e i reason = prompt_and_persist m s e i false reason

unfoldable pub check : Manager → Store → Env → CheckInput → Outcome × Manager × Store
unfolding check_cached after_cached
check m s e i =
    if (danger m i).0
    then prompt_and_persist m s e i true (danger m i).1
    else after_cached (check_cached m s i) s e i (danger m i).1
