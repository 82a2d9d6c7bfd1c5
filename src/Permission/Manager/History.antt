-- ===== src/Permission/Manager/History.antt =====
-- What happens to the stored rules over time: the checks of any managers, the rules that the API adds
-- and deletes, and a database that fails and comes back.
use workhorse_agent.Prelude.{
  ◌≡◌, Bool, true, false, ◌&&◌, not, List, [], ◌∷◌, Option, none, some, Text, text_eq, text_eq_iff,
  any, any-append, keep_if, All, arith, Bool-cases, inl, inr,
}
use workhorse_agent.Permission.Rows.{
  Decision, allow_session, allow_permanent, deny_permanent, permanent, Permission, Store,
  save_permission, delete_permission,
}
use workhorse_agent.Permission.Rules.{
  Manager, CheckInput, Env, PromptFunc, Outcome, CheckError, save_failed, save_permanent,
}
use workhorse_agent.Permission.Manager.{
  check, check_cached, after_cached, prompt_with, prompt_and_persist, settle, apply_answer, persist,
  after_save, danger,
}
use workhorse_agent.Permission.Manager.Permanent.{visible, denies}

pub data Change : Type 0 where
  checks : Manager → Env → CheckInput → Change
  saves : Permission → Change
  deletes : Text → Change
  answers : (reads writes : Bool) → Change

abbrev or_same : Store → Option Store → Store
or_same s none = s
or_same s (some s') = s'

unfoldable pub step : Change → Store → Store
step (checks m e i) s = (check m s e i).2
step (saves p) s = or_same s (save_permission p s)
step (deletes id) s = or_same s (delete_permission id s)
step (answers reads writes) s = record s { reads = reads; writes = writes }

unfoldable pub run : List Change → Store → Store
run [] s = s
run (c ∷ cs) s = run cs (step c s)

abbrev other_id : Text → Option Text → Bool
other_id id none = true
other_id id (some x) = not (text_eq x id)

-- The change neither deletes the row of that id nor writes one.
unfoldable pub spares : Text → Change → Bool
spares id (checks m e i) = other_id id e.rand
spares id (saves p) = not (text_eq p.id id)
spares id (deletes x) = not (text_eq x id)
spares id (answers reads writes) = true

module _ (id k tool resource : Text) where
  -- The row of that id is a denial of the call that the session sees.
  abbrev pub denying : Permission → Bool
  denying p = text_eq p.id id && (visible k p && denies tool resource p)

  abbrev pub Denying : Store → Type 0
  Denying s = any denying s.permissions ≡ true

  other_row :
      (x : Text) (p : Permission) → text_eq x id ≡ false → denying p ≡ true → text_eq p.id x ≡ false
  other_row x p h d =
      ground (arith, h, d, text_eq_iff p.id id, text_eq_iff p.id x, text_eq_iff x id)

  any-others :
      (x : Text) (ps : List Permission)
      → text_eq x id ≡ false
      → any denying ps ≡ true
      → any denying (keep_if (λ q. not (text_eq q.id x)) ps) ≡ true
  unfolding any keep_if
  any-others x [] h d = d
  any-others x (p ∷ ps) h d = ground (arith, d, h, other_row x p h, any-others x ps h)

  save_permission-Denying :
      (p : Permission) (s : Store)
      → text_eq p.id id ≡ false
      → Denying s
      → Denying (or_same s (save_permission p s))
  unfolding save_permission
  save_permission-Denying p s h d = ground (
    arith,
    d,
    any-append denying (keep_if (λ q. not (text_eq q.id p.id)) s.permissions) (p ∷ []),
    any-others p.id s.permissions h d,
  )

  delete_permission-Denying :
      (x : Text) (s : Store)
      → text_eq x id ≡ false
      → Denying s
      → Denying (or_same s (delete_permission x s))
  unfolding delete_permission
  delete_permission-Denying x s h d = ground (arith, d, any-others x s.permissions h d)

  pub Denying-any :
      (s : Store)
      → Denying s
      → any (λ p. visible k p && denies tool resource p) s.permissions ≡ true
  unfolding any
  Denying-any s d = weaker s.permissions d
    where
      weaker :
          (ps : List Permission)
          → any denying ps ≡ true
          → any (λ p. visible k p && denies tool resource p) ps ≡ true
      weaker [] h = absurd (ground (arith, h))
      weaker (p ∷ ps) h = ground (arith, h, weaker ps)

  saved-Denying :
      (s : Store) (o : Option Store)
      → Denying (or_same s o)
      → Denying
          (elim o as (λ x. Option CheckError × Store) [
            | none ↦ (some save_failed, s)
            | some s' ↦ (none, s')
          ]).1
  saved-Denying s none h = h
  saved-Denying s (some s') h = h

  -- One check, whatever it asks, saves or fails to save.
  module _ (s : Store) (e : Env) (i : CheckInput) (other : other_id id e.rand ≡ true)
      (holds : Denying s) where
    save_permanent-Denying : (d : Decision) → Denying (save_permanent e i.tool i.resource d s).1
    unfolding save_permanent
    save_permanent-Denying d =
        elim e.rand
            as (λ r.
              other_id id r ≡ true
              → Denying (save_permanent (record e { rand = r }) i.tool i.resource d s).1) [
                | none ↦ λ h. holds
                | some x ↦ λ h.
                    let row : Permission = record {
                      id = x;
                      session_id = [];
                      tool = i.tool;
                      pattern = i.resource;
                      decision = d;
                      scope = permanent;
                      created_at = e.now;
                    } in
                    saved-Denying s (save_permission row s)
                      (save_permission-Denying row s (ground (arith, h)) holds)
              ]
          other

    after_save-Denying :
        (t : Option CheckError × Store) (m : Manager) (d : Decision)
        → Denying t.1
        → Denying (after_save t m i d).2
    unfolding after_save
    after_save-Denying (none, s') m d h = h
    after_save-Denying (some x, s') m d h = h

    apply_answer-Denying : (m : Manager) (d : Decision) → Denying (apply_answer m s e i d).2
    unfolding apply_answer persist
    apply_answer-Denying m allow_permanent =
        after_save-Denying _ m allow_permanent (save_permanent-Denying allow_permanent)
    apply_answer-Denying m deny_permanent =
        after_save-Denying _ m deny_permanent (save_permanent-Denying deny_permanent)
    apply_answer-Denying m allow_session = holds
    apply_answer-Denying m _ = holds

    settle-Denying : (m : Manager) (a : Decision × Bool) → Denying (settle m s e i a).2
    unfolding settle
    settle-Denying m (d, true) = apply_answer-Denying m d
    settle-Denying m (d, false) = holds

    prompt_with-Denying :
        (p : Option PromptFunc) (m : Manager) (flagged : Bool) (reason : Text)
        → Denying (prompt_with p m s e i flagged reason).2
    unfolding prompt_with
    prompt_with-Denying none m flagged reason = holds
    prompt_with-Denying (some ask) m flagged reason = settle-Denying m _

    after_cached-Denying :
        (f : Option Outcome × Manager) (reason : Text) → Denying (after_cached f s e i reason).2
    unfolding after_cached prompt_and_persist
    after_cached-Denying (some o, m) reason = holds
    after_cached-Denying (none, m) reason = prompt_with-Denying m.prompt m false reason

    check-Denying : (m : Manager) → Denying (check m s e i).2
    unfolding check prompt_and_persist
    check-Denying m = elim (Bool-cases (danger m i).0) [
      | inl d ↦ rw (d, check) (prompt_with-Denying m.prompt m true _)
      | inr d ↦ rw (d, check) (after_cached-Denying (check_cached m s i) _)
    ]

  step-Denying : (c : Change) (s : Store) → spares id c ≡ true → Denying s → Denying (step c s)
  unfolding step spares
  step-Denying (checks m e i) s h d = check-Denying s e i h d m
  step-Denying (saves p) s h d = save_permission-Denying p s (ground (arith, h)) d
  step-Denying (deletes x) s h d = delete_permission-Denying x s (ground (arith, h)) d
  step-Denying (answers reads writes) s h d = d

  -- The denial stays through every change that spares its row.
  pub run-Denying :
      (cs : List Change) (s : Store)
      → All (λ c. spares id c ≡ true) cs
      → Denying s
      → Denying (run cs s)
  unfolding run
  run-Denying [] s h d = d
  run-Denying (c ∷ cs) s h d = run-Denying cs (step c s) h.1 (step-Denying c s h.0 d)
