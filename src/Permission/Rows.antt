-- ===== src/Permission/Rows.antt =====
-- The permissions table: the types of internal/store/types.go and the statements of
-- internal/store/sqlite/crud.go that read and write it. `reads` and `writes` say whether the
-- database answers.
use workhorse_agent.Prelude.{
  ℕ, Bool, ◌&&◌, ◌||◌, not, List, [], ◌∷◌, ◌++◌, Option, none, some, Text, text_eq, is_empty, leb,
  if◌then◌else◌, keep_if, any, ◌≡◌, refl, arith,
}

-- `other` is any string but the five.
pub data Decision : Type 0 where
  allow_once allow_session allow_permanent deny deny_permanent : Decision
  other : Text → Decision

pub data Scope : Type 0 where
  once session permanent : Scope
  other_scope : Text → Scope

pub record Permission : Type 0 where
  pub id : Text
  pub session_id : Text
  pub tool : Text
  pub pattern : Text
  pub decision : Decision
  pub scope : Scope
  pub created_at : ℕ

pub record Store : Type 0 where
  pub permissions : List Permission
  pub reads : Bool
  pub writes : Bool

-- INSERT OR REPLACE: the row with that id gives way.
unfoldable pub save_permission : Permission → Store → Option Store
save_permission p s =
    if s.writes
    then some
        (record s { permissions = keep_if (λ q. not (text_eq q.id p.id)) s.permissions ++ p ∷ [] })
    else none

unfoldable pub delete_permission : Text → Store → Option Store
delete_permission id s =
    if s.writes && any (λ q. text_eq q.id id) s.permissions
    then some (record s { permissions = keep_if (λ q. not (text_eq q.id id)) s.permissions })
    else none

unfoldable pub insert_by_time : Permission → List Permission → List Permission
insert_by_time p [] = p ∷ []
insert_by_time p (q ∷ qs) =
    let later = insert_by_time p qs in
    if leb p.created_at q.created_at then p ∷ q ∷ qs else q ∷ later

-- ORDER BY created_at
unfoldable pub sort_by_time : List Permission → List Permission
unfolding insert_by_time
sort_by_time [] = []
sort_by_time (p ∷ ps) = insert_by_time p (sort_by_time ps)

-- The global rules and those of the session, oldest first.
unfoldable pub list_permissions : Text → Store → Option (List Permission)
unfolding sort_by_time
list_permissions session_id s =
    if s.reads
    then some (
        sort_by_time
          (keep_if (λ p. is_empty p.session_id || text_eq p.session_id session_id) s.permissions))
    else none

-- Sorting keeps the rows.
any-insert_by_time :
    (f : Permission → Bool) (p : Permission) (ps : List Permission)
    → any f (insert_by_time p ps) ≡ (f p || any f ps)
unfolding insert_by_time any
any-insert_by_time f p [] = refl
any-insert_by_time f p (q ∷ qs) = ground (arith, any-insert_by_time f p qs)

pub any-sort_by_time :
    (f : Permission → Bool) (ps : List Permission) → any f (sort_by_time ps) ≡ any f ps
unfolding sort_by_time any
any-sort_by_time f [] = refl
any-sort_by_time f (p ∷ ps) =
    ground (arith, any-insert_by_time f p (sort_by_time ps), any-sort_by_time f ps)
