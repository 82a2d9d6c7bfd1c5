-- ===== src/Permission/Manager/Isolation.antt =====
-- A check touches the rules of its own session alone.
use workhorse_agent.Prelude.{
  ◌≡◌, refl, ◌≢◌, ◌∙◌, inl, inr, Bool, true, false, List, Option, none, some, Text, lookup,
  lookup-insert_ne, Bool-cases,
}
use workhorse_agent.Permission.Rows.{
  Decision, allow_session, allow_permanent, deny_permanent, Store,
}
use workhorse_agent.Permission.Rules.{
  Manager, CheckInput, Env, Rule, PromptFunc, Outcome, match_session_rule, add_session, taken,
  CheckError,
}
use workhorse_agent.Permission.Manager.{
  cached_outcome, check_cached, after_cached, prompt_with, prompt_and_persist, settle, apply_answer,
  persist, check, after_save, session_rule, danger,
}

module _ (j : Text) where
  abbrev Same : Manager → Manager → Type 0
  Same m n = lookup j n.session_rules ≡ lookup j m.session_rules

  taken-Same :
      (m : Manager) (k : Text) (t : Option (Decision × List Rule)) → j ≢ k → Same m (taken m k t).1
  unfolding taken
  taken-Same m k none h = refl
  taken-Same m k (some (d, left)) h = lookup-insert_ne k j left m.session_rules h

  cached_outcome-Same :
      (f : Option Decision × Manager) (s : Store) (i : CheckInput)
      → Same f.1 (cached_outcome f s i).1
  unfolding cached_outcome
  cached_outcome-Same (some d, m) s i = refl
  cached_outcome-Same (none, m) s i = refl

  add_session-Same : (k : Text) (r : Rule) (m : Manager) → j ≢ k → Same m (add_session k r m)
  unfolding add_session
  add_session-Same k r m h = lookup-insert_ne k j _ m.session_rules h

  after_save-Same :
      (t : Option CheckError × Store) (m : Manager) (i : CheckInput) (d : Decision)
      → j ≢ i.session_id
      → Same m (after_save t m i d).1
  unfolding after_save
  after_save-Same (none, s) m i d h = refl
  after_save-Same (some x, s) m i d h = add_session-Same i.session_id (session_rule i d) m h

  apply_answer-Same :
      (m : Manager) (s : Store) (e : Env) (i : CheckInput) (d : Decision)
      → j ≢ i.session_id
      → Same m (apply_answer m s e i d).1
  unfolding apply_answer persist
  apply_answer-Same m s e i allow_session h =
      add_session-Same i.session_id (session_rule i allow_session) m h
  apply_answer-Same m s e i allow_permanent h = after_save-Same _ m i allow_permanent h
  apply_answer-Same m s e i deny_permanent h = after_save-Same _ m i deny_permanent h
  apply_answer-Same m s e i _ h = refl

  settle-Same :
      (m : Manager) (s : Store) (e : Env) (i : CheckInput) (a : Decision × Bool)
      → j ≢ i.session_id
      → Same m (settle m s e i a).1
  unfolding settle
  settle-Same m s e i (d, true) h = apply_answer-Same m s e i d h
  settle-Same m s e i (d, false) h = refl

  prompt_with-Same :
      (p : Option PromptFunc) (m : Manager) (s : Store) (e : Env) (i : CheckInput) (flagged : Bool)
      (reason : Text)
      → j ≢ i.session_id
      → Same m (prompt_with p m s e i flagged reason).1
  unfolding prompt_with
  prompt_with-Same none m s e i flagged reason h = refl
  prompt_with-Same (some ask) m s e i flagged reason h = settle-Same m s e i _ h

  after_cached-Same :
      (f : Option Outcome × Manager) (s : Store) (e : Env) (i : CheckInput) (reason : Text)
      → j ≢ i.session_id
      → Same f.1 (after_cached f s e i reason).1
  unfolding after_cached prompt_and_persist
  after_cached-Same (some o, m) s e i reason h = refl
  after_cached-Same (none, m) s e i reason h = prompt_with-Same m.prompt m s e i false reason h

-- A check leaves the rules of every other session as they were, whatever it decides, prompts,
-- saves or fails to save.
pub check-other_sessions :
    (m : Manager) (s : Store) (e : Env) (i : CheckInput) (j : Text)
    → j ≢ i.session_id
    → lookup j (check m s e i).1.session_rules ≡ lookup j m.session_rules
unfolding check check_cached prompt_and_persist match_session_rule
check-other_sessions m s e i j h = elim (Bool-cases (danger m i).0) [
  | inl d ↦ rw (d, check) (prompt_with-Same j m.prompt m s e i true _ h)
  | inr d ↦
      rw (d, check)
        (after_cached-Same j (check_cached m s i) s e i _ h
          ∙ cached_outcome-Same j (match_session_rule m i.session_id i.tool i.resource) s i
          ∙ taken-Same j m i.session_id _ h)
]
