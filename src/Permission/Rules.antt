-- ===== src/Permission/Rules.antt =====
-- internal/permission/manager.go: its state and its rules. The prompt callback and the danger guard
-- are arguments of `New`, so they are fields here.
use workhorse_agent.Prelude.{
  ℕ, Bool, true, false, ◌&&◌, ◌||◌, not, List, [], ◌∷◌, ◌++◌, Option, none, some, Text, is_empty,
  if◌then◌else◌, Dict, lookup, insert,
}
use workhorse_agent.Permission.Glob.{match_glob}
use workhorse_agent.Permission.Rows.{
  Decision, allow_once, allow_session, allow_permanent, deny, deny_permanent, other, Scope, once,
  session, permanent, other_scope, Permission, Store, save_permission, list_permissions,
}

pub record Request : Type 0 where
  pub session_id : Text
  pub request_id : Text
  pub tool : Text
  pub resource : Text
  pub dangerous : Bool
  pub reason : Text

pub data Source : Type 0 where
  source_rule source_default source_prompt source_timeout source_none : Source

pub record CheckInput : Type 0 where
  pub session_id : Text
  pub request_id : Text
  pub tool : Text
  pub resource : Text

-- The deadline that the context carries, if any, and the request; the answer, and whether there
-- was one.
abbrev pub PromptFunc : Type 0
PromptFunc = Option ℕ → Request → Decision × Bool

pub record Rule : Type 0 where
  pub pattern : Text
  pub tool : Text
  pub decision : Decision
  pub scope : Scope

pub record Manager : Type 0 where
  pub prompt : Option PromptFunc
  pub dangerous : Option (Text → Text → Bool × Text)
  pub timeout : ℕ
  pub default_decision : Decision
  pub session_rules : Dict (List Rule)

-- New
pub new_manager : Option PromptFunc → Option (Text → Text → Bool × Text) → ℕ → Decision → Manager
new_manager prompt dangerous timeout default_decision = record {
  prompt = prompt;
  dangerous = dangerous;
  timeout = timeout;
  default_decision = default_decision;
  session_rules = [];
}

pub set_default_decision : Decision → Manager → Manager
set_default_decision d m = record m { default_decision = d }

pub set_timeout : ℕ → Manager → Manager
set_timeout d m = record m { timeout = d }

pub data CheckError : Type 0 where
  timed_out list_failed rand_failed save_failed : CheckError

-- What Check returns.
pub record Outcome : Type 0 where
  pub decision : Decision
  pub source : Source
  pub error : Option CheckError

-- What a call finds outside: eight random bytes, printed, unless their source fails, and the time.
pub record Env : Type 0 where
  pub rand : Option Text
  pub now : ℕ

unfoldable pub match_tool_resource : Rule → Text → Text → Bool
match_tool_resource r tool resource =
    if not (is_empty r.tool) && not (match_glob r.tool tool)
    then false
    else if is_empty r.pattern
    then true
    else match_glob r.pattern resource

abbrev pub is_once : Scope → Bool
is_once once = true
is_once session = false
is_once permanent = false
is_once (other_scope s) = false

abbrev pub is_permanent : Scope → Bool
is_permanent permanent = true
is_permanent once = false
is_permanent session = false
is_permanent (other_scope s) = false

abbrev pub is_deny_permanent : Decision → Bool
is_deny_permanent deny_permanent = true
is_deny_permanent allow_once = false
is_deny_permanent allow_session = false
is_deny_permanent allow_permanent = false
is_deny_permanent deny = false
is_deny_permanent (other s) = false

-- d == ""
abbrev pub is_unset : Decision → Bool
is_unset (other s) = is_empty s
is_unset allow_once = false
is_unset allow_session = false
is_unset allow_permanent = false
is_unset deny = false
is_unset deny_permanent = false

-- A missing key reads as the empty slice.
abbrev pub or_empty : Option (List Rule) → List Rule
or_empty none = []
or_empty (some rs) = rs

abbrev pub rules_of : Manager → Text → List Rule
rules_of m session_id = or_empty (lookup session_id m.session_rules)

-- The loop of matchSessionRule: the decision, and the rules with a rule of scope once taken out.
unfoldable pub take_match : Text → Text → List Rule → Option (Decision × List Rule)
unfolding match_tool_resource
take_match tool resource [] = none
take_match tool resource (r ∷ rs) =
    let rest = take_match tool resource rs in
    if match_tool_resource r tool resource
    then some (r.decision, if is_once r.scope then rs else r ∷ rs)
    else elim rest [ none ↦ none | some (d, left) ↦ some (d, r ∷ left) ]

unfoldable pub taken : Manager → Text → Option (Decision × List Rule) → Option Decision × Manager
taken m session_id none = (none, m)
taken m session_id (some (d, left)) =
    (some d, record m { session_rules = insert session_id left m.session_rules })

unfoldable pub match_session_rule : Manager → Text → Text → Text → Option Decision × Manager
unfolding take_match taken
match_session_rule m session_id tool resource =
    taken m session_id (take_match tool resource (rules_of m session_id))

-- The rule that matchPermanentRule makes of a row.
abbrev pub row_rule : Permission → Rule
row_rule p = record { pattern = p.pattern; tool = p.tool; decision = p.decision; scope = p.scope }

abbrev pub row_applies : Text → Text → Permission → Bool
row_applies tool resource p = is_permanent p.scope && match_tool_resource (row_rule p) tool resource

-- `if !foundAllow { allow = p.Decision }`
abbrev pub note_allow : Option Decision → Decision → Option Decision
note_allow none d = some d
note_allow (some a) d = some a

-- The loop of matchPermanentRule over the rows that are left.
unfoldable pub scan_rows : Text → Text → Option Decision → List Permission → Option Decision
unfolding match_tool_resource
scan_rows tool resource allow [] = allow
scan_rows tool resource allow (p ∷ ps) =
    let skip = scan_rows tool resource allow ps in
    let noted = scan_rows tool resource (note_allow allow p.decision) ps in
    if not (is_permanent p.scope)
    then skip
    else if not (match_tool_resource (row_rule p) tool resource)
    then skip
    else if is_deny_permanent p.decision
    then some p.decision
    else noted

-- The outer `none` is the store's error.
unfoldable pub match_permanent_rule : Store → Text → Text → Text → Option (Option Decision)
unfolding scan_rows
match_permanent_rule s session_id tool resource = elim (list_permissions session_id s) [
  | none ↦ none
  | some rows ↦ some (scan_rows tool resource none rows)
]

unfoldable pub add_session : Text → Rule → Manager → Manager
add_session session_id r m = record m {
  session_rules = insert session_id (rules_of m session_id ++ r ∷ []) m.session_rules;
}

unfoldable pub grant_session : Text → Text → Text → Manager → Manager
unfolding add_session
grant_session session_id tool resource m =
    if is_empty session_id || is_empty tool
    then m
    else add_session session_id
        (record { pattern = resource; tool = tool; decision = allow_session; scope = session }) m

unfoldable pub save_permanent : Env → Text → Text → Decision → Store → (Option CheckError) × Store
save_permanent e tool pattern d s = elim e.rand [
  | none ↦ (some rand_failed, s)
  | some id ↦
      elim (save_permission
        (record {
          id = id;
          session_id = [];
          tool = tool;
          pattern = pattern;
          decision = d;
          scope = permanent;
          created_at = e.now;
        })
        s) [ none ↦ (some save_failed, s) | some s' ↦ (none, s') ]
]
