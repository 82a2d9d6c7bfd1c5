-- ===== src/Permission/Manager/Answers.antt =====
-- What an answer to a prompt does to the session's later checks.
use workhorse_agent.Prelude.{
  ◌≡◌, refl, ◌∙◌, ap, true, false, List, Option, none, some, Text, text_eq_self, arith,
  if◌then◌else◌,
}
use workhorse_agent.Permission.Glob.Literal.{match_glob-plain}
use workhorse_agent.Permission.Segment.Plain.{IsPlain}
use workhorse_agent.Permission.Rows.{Decision, Store}
use workhorse_agent.Permission.Rules.{
  Manager, CheckInput, Env, Rule, PromptFunc, match_tool_resource, match_session_rule, take_match,
  taken, rules_of,
}
use workhorse_agent.Permission.Manager.{
  cached_outcome, check_cached, after_cached, prompt_with, prompt_and_persist, settle, apply_answer,
  check, danger, deadline, request,
}
use workhorse_agent.Permission.Manager.History.{}

pub match_tool_resource_self :
    (i : CheckInput) (r : Rule)
    → r.tool ≡ i.tool
    → r.pattern ≡ i.resource
    → IsPlain i.tool
    → IsPlain i.resource
    → match_tool_resource r i.tool i.resource ≡ true
unfolding match_tool_resource
match_tool_resource_self i r t p ht hr = ground (
  arith,
  match_glob-plain i.tool i.tool ht,
  match_glob-plain i.resource i.resource hr,
  text_eq_self i.tool,
  text_eq_self i.resource,
)

cached_none :
    (f : Option Decision × Manager) (s : Store) (i : CheckInput)
    → (cached_outcome f s i).0 ≡ none
    → f.0 ≡ none
unfolding cached_outcome
cached_none (some d, m) s i h = ground arith
cached_none (none, m) s i h = refl

taken-none :
    (m : Manager) (k : Text) (t : Option (Decision × List Rule)) → (taken m k t).0 ≡ none → t ≡ none
unfolding taken
taken-none m k none h = refl
taken-none m k (some (d, left)) h = ground arith

-- A call that goes on to the prompt, and how the prompt is answered.
module _ (m : Manager) (s : Store) (e : Env) (i : CheckInput) (ask : PromptFunc) (d : Decision)
    (calm : (danger m i).0 ≡ false) (unknown : (check_cached m s i).0 ≡ none)
    (asks : m.prompt ≡ some ask)
    (answer : ask (deadline m) (request i false (danger m i).1) ≡ (d, true)) where
  no_rule : take_match i.tool i.resource (rules_of m i.session_id) ≡ none
  unfolding check_cached match_session_rule
  no_rule =
      taken-none m i.session_id (take_match i.tool i.resource (rules_of m i.session_id))
        (cached_none (match_session_rule m i.session_id i.tool i.resource) s i unknown)

  unchanged : (check_cached m s i).1 ≡ m
  unfolding check_cached match_session_rule cached_outcome
  unchanged = ap (λ t. (cached_outcome (taken m i.session_id t) s i).1) no_rule

  pub answered : check m s e i ≡ apply_answer m s e i d
  unfolding check after_cached prompt_and_persist
  answered =
      ap
        (λ b.
          if b
          then prompt_and_persist m s e i true (danger m i).1
          else after_cached (check_cached m s i) s e i (danger m i).1)
        calm
      ∙ ap (λ f. after_cached f s e i (danger m i).1) {y = (none, m)}
          (λ k. (unknown k, unchanged k))
      ∙ ap (λ p. prompt_with p m s e i false (danger m i).1) asks
      ∙ ap (settle m s e i) answer
