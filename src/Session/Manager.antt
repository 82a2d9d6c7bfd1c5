-- ===== src/Session/Manager.antt =====
-- internal/session/manager.go: the map of live sessions under its mutex. A `none` in the map is the
-- placeholder of a session that is being created. The goroutine of a session and the wait for it
-- to drain are not modelled; what they leave in the map and the table is.
pub mod Cap
pub mod Lifecycle
use workhorse_agent.Prelude.{
  ℕ, zero, suc, Bool, true, false, ◌&&◌, not, List, [], ◌∷◌, Option, none, some, Text, ltb, leb,
  if◌then◌else◌, Dict, lookup, insert, delete, length,
}
use workhorse_agent.Session.Rows.{
  Row, Store, StoreError, row_not_found, database_failed, Fetched, row, fetch_failed, insert_row,
  get_row, soft_delete_row, purge_row,
}

-- The fields of a session that the manager reads; `id` is the fresh ULID of New.
pub record Session : Type 0 where
  pub id : Text
  pub workdir : Text
  pub model : Text
  pub ephemeral : Bool

abbrev pub Sessions : Type 0
Sessions = Dict (Option Session)

-- What a call reports besides success.
pub data ManagerError : Type 0 where
  bad_workdir too_many_concurrent not_found persist_failed hydrate_failed store_failed :
      ManagerError

abbrev pub at_cap : ℕ → Sessions → Bool
at_cap max_concurrent ss = ltb 0 max_concurrent && leb max_concurrent (length ss)

-- CreateSession, its first critical section: the slot is reserved.
unfoldable pub reserve : ℕ → Text → Sessions → Option Sessions
reserve max_concurrent id ss = if at_cap max_concurrent ss then none else some (insert id none ss)

-- Its second one, after the row is written.
unfoldable pub publish : Session → Sessions → Sessions
publish sess ss = insert sess.id (some sess) ss

-- Or the way back, if the row could not be written.
unfoldable pub abandon : Text → Sessions → Sessions
abandon id ss = delete id ss

abbrev new_row : Session → Row
new_row sess = record { workdir = sess.workdir; model = sess.model; deleted_at = none }

-- The result of a call with the map and the table that it leaves. `store` is none for a manager
-- without one.
pub data Result {ℓ} (A : Type ℓ) : Type ℓ where
  ok : A → Result A
  err : ManagerError → Result A

unfoldable pub persisted :
    Option Store → Session → Sessions → Result Session × Sessions × Option Store
unfolding publish abandon
persisted none sess ss = (ok sess, publish sess ss, none)
persisted (some st) sess ss = elim sess.ephemeral [
  | true ↦ (ok sess, publish sess ss, some st)
  | false ↦ elim (insert_row sess.id (new_row sess) st) [
    | none ↦ (err persist_failed, abandon sess.id ss, some st)
    | some st' ↦ (ok sess, publish sess ss, some st')
  ]
]

-- CreateSession with no other call in between, from a session with its directory checked.
unfoldable pub create_session :
    ℕ → Option Session → Sessions → Option Store → Result Session × Sessions × Option Store
unfolding reserve persisted
create_session max_concurrent none ss st = (err bad_workdir, ss, st)
create_session max_concurrent (some sess) ss st = elim (reserve max_concurrent sess.id ss) [
  | none ↦ (err too_many_concurrent, ss, st)
  | some ss' ↦ persisted st sess ss'
]

-- buildHydrated is an argument: it decodes the row's JSON and its transcript, and may fail.
unfoldable pub hydrated : Text → Option Session → Sessions → Result Session × Sessions
hydrated id none ss = (err hydrate_failed, ss)
hydrated id (some sess) ss = (ok sess, insert id (some sess) ss)

unfoldable pub from_row :
    (Row → Option Session) → Text → Fetched → Sessions → Result Session × Sessions
unfolding hydrated
from_row build id (fetch_failed row_not_found) ss = (err not_found, ss)
from_row build id (fetch_failed database_failed) ss = (err store_failed, ss)
from_row build id (row r) ss = elim r.deleted_at [
  | some t ↦ (err not_found, ss)
  | none ↦ hydrated id (build r) ss
]

unfoldable pub load :
    (Row → Option Session) → ℕ → Text → Option Store → Sessions → Result Session × Sessions
unfolding from_row
load build max_concurrent id none ss = (err not_found, ss)
load build max_concurrent id (some st) ss =
    if at_cap max_concurrent ss
    then (err too_many_concurrent, ss)
    else from_row build id (get_row id st) ss

unfoldable pub found :
    (Row → Option Session)
    → ℕ
    → Text
    → Option Store
    → Sessions
    → Option (Option Session)
    → Result Session × Sessions
unfolding load
found build max_concurrent id st ss (some (some sess)) = (ok sess, ss)
found build max_concurrent id st ss (some none) = (err not_found, ss)
found build max_concurrent id st ss none = load build max_concurrent id st ss

-- GetOrHydrate, which holds the mutex throughout.
unfoldable pub get_or_hydrate :
    (Row → Option Session) → ℕ → Text → Option Store → Sessions → Result Session × Sessions
unfolding found
get_or_hydrate build max_concurrent id st ss = found build max_concurrent id st ss (lookup id ss)

abbrev live : Option (Option Session) → Option Session
live none = none
live (some slot) = slot

-- GetSession; Cancel and RequestCompact report not_found under the same condition.
unfoldable pub get_session : Text → Sessions → Result Session
get_session id ss = elim (live (lookup id ss)) [ none ↦ err not_found | some sess ↦ ok sess ]

-- CountActive
unfoldable pub count_active : Sessions → ℕ
count_active [] = 0
count_active ((id, none) ∷ ss) = count_active ss
count_active ((id, some sess) ∷ ss) = suc (count_active ss)

-- DeleteSession, its critical section: whether the session was live, the map and the table.
unfoldable pub unlist : ℕ → Text → Sessions → Option Store → Bool × Sessions × Option Store
unlist now id ss st =
    let marked : Option Store = elim st [
      | none ↦ none
      | some s ↦ some (soft_delete_row now id s).1
    ] in
    elim (live (lookup id ss)) [
      | none ↦ (false, ss, marked)
      | some sess ↦ (true, delete id ss, marked)
    ]

-- What is left of DeleteSession after the session's goroutine has drained: the purge.
unfoldable pub purged : Bool → Option StoreError × Store → Option ManagerError × Option Store
purged was_live (none, st) = (none, some st)
purged was_live (some row_not_found, st) = (if was_live then none else some not_found, some st)
purged was_live (some database_failed, st) = (some store_failed, some st)

unfoldable pub finish_delete : Bool → Text → Option Store → Option ManagerError × Option Store
unfolding purged
finish_delete was_live id none = (if was_live then none else some not_found, none)
finish_delete was_live id (some st) = purged was_live (purge_row id st)

unfoldable pub delete_session :
    ℕ → Text → Sessions → Option Store → Option ManagerError × Sessions × Option Store
unfolding unlist finish_delete
delete_session now id ss st =
    let (was_live, ss', st') = unlist now id ss st in
    let (e, st'') = finish_delete was_live id st' in (e, ss', st'')
