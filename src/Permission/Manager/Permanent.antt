-- ===== src/Permission/Manager/Permanent.antt =====
-- Stored rules: a denial wins over every allowance, whatever their order.
use workhorse_agent.Prelude.{
  ◌≡◌, refl, ◌↔◌, Bool, true, false, ◌&&◌, ◌||◌, List, [], ◌∷◌, Option, none, some, Text, text_eq,
  is_empty, any, any-keep_if, arith, ◌∙◌, sym, ap, keep_if,
}
use workhorse_agent.Permission.Rows.{
  Decision, deny_permanent, Permission, Store, list_permissions, any-sort_by_time, sort_by_time,
}
use workhorse_agent.Permission.Rules.{
  is_deny_permanent, row_applies, note_allow, scan_rows, match_permanent_rule,
}

abbrev pub denies : Text → Text → Permission → Bool
denies tool resource p = row_applies tool resource p && is_deny_permanent p.decision

scan_rows_denied :
    (tool resource : Text) (allow : Option Decision) (rows : List Permission)
    → any (denies tool resource) rows ≡ true
    → scan_rows tool resource allow rows ≡ some deny_permanent
unfolding scan_rows any
scan_rows_denied tool resource allow [] h = cc
scan_rows_denied tool resource allow (p ∷ ps) h = ground (
  arith,
  scan_rows_denied tool resource allow ps,
  scan_rows_denied tool resource (note_allow allow p.decision) ps,
)

abbrev notes_denial : Option Decision → Bool
notes_denial none = false
notes_denial (some d) = is_deny_permanent d

scan_rows_only_denied :
    (tool resource : Text) (allow : Option Decision) (rows : List Permission)
    → notes_denial allow ≡ false
    → scan_rows tool resource allow rows ≡ some deny_permanent
    → any (denies tool resource) rows ≡ true
unfolding scan_rows any
scan_rows_only_denied tool resource allow [] h e = ground arith
scan_rows_only_denied tool resource allow (p ∷ ps) h e = ground (
  arith,
  scan_rows_only_denied tool resource allow ps,
  scan_rows_only_denied tool resource (note_allow allow p.decision) ps,
)

-- The rows that a session sees.
abbrev pub visible : Text → Permission → Bool
visible session_id p = is_empty p.session_id || text_eq p.session_id session_id

sorted_visible-denied :
    (s : Store) (session_id tool resource : Text)
    → any (denies tool resource) (sort_by_time (keep_if (visible session_id) s.permissions))
      ≡ any (λ p. visible session_id p && denies tool resource p) s.permissions
sorted_visible-denied s session_id tool resource =
    any-sort_by_time (denies tool resource) _
    ∙ any-keep_if (denies tool resource) (visible session_id) s.permissions

match_permanent_rule_read :
    (s : Store) (session_id tool resource : Text)
    → s.reads ≡ true
    → match_permanent_rule s session_id tool resource
      ≡ some
          (scan_rows tool resource none (sort_by_time (keep_if (visible session_id) s.permissions)))
unfolding match_permanent_rule list_permissions
match_permanent_rule_read s session_id tool resource r = ground arith

-- Where the store can be read, the stored rules deny a call for good exactly if some permanent
-- deny_permanent rule that the session sees applies to it, in whatever order the rules were made
-- and whatever other rules allow.
pub match_permanent_rule-denied_iff :
    (s : Store) (session_id tool resource : Text)
    → s.reads ≡ true
    → (match_permanent_rule s session_id tool resource ≡ some (some deny_permanent))
      ↔ (any (λ p. visible session_id p && denies tool resource p) s.permissions ≡ true)
match_permanent_rule-denied_iff s session_id tool resource r = (
  λ e.
      sym same
      ∙ scan_rows_only_denied tool resource none rows refl
          (ground (arith, e, match_permanent_rule_read s session_id tool resource r)),
  λ h.
      match_permanent_rule_read s session_id tool resource r
      ∙ ap some (scan_rows_denied tool resource none rows (same ∙ h)),
)
  where
    rows : List Permission
    rows = sort_by_time (keep_if (visible session_id) s.permissions)

    same :
        any (denies tool resource) rows
        ≡ any (λ p. visible session_id p && denies tool resource p) s.permissions
    same = sorted_visible-denied s session_id tool resource
