-- ===== src/Session/Rows.antt =====
-- The sessions table: the statements of internal/store/sqlite/crud.go that the session manager
-- relies on. `answers` says whether the database does.
use workhorse_agent.Prelude.{
  ℕ, Bool, true, false, Option, none, some, Text, Dict, lookup, insert, delete,
}

pub record Row : Type 0 where
  pub workdir : Text
  pub model : Text
  pub deleted_at : Option ℕ

pub record Store : Type 0 where
  pub rows : Dict Row
  pub answers : Bool

pub data StoreError : Type 0 where
  row_not_found database_failed : StoreError

-- INSERT: the primary key may not be there.
unfoldable pub insert_row : Text → Row → Store → Option Store
insert_row id r s = elim s.answers [
  | false ↦ none
  | true ↦ elim (lookup id s.rows) [
    | some old ↦ none
    | none ↦ some (record s { rows = insert id r s.rows })
  ]
]

pub data Fetched : Type 0 where
  row : Row → Fetched
  fetch_failed : StoreError → Fetched

unfoldable pub get_row : Text → Store → Fetched
get_row id s = elim s.answers [
  | false ↦ fetch_failed database_failed
  | true ↦ elim (lookup id s.rows) [ none ↦ fetch_failed row_not_found | some r ↦ row r ]
]

-- UPDATE … SET deleted_at = ? WHERE id = ? AND deleted_at IS NULL, and the probe when no row fits.
unfoldable pub soft_delete_row : ℕ → Text → Store → Option StoreError × Store
soft_delete_row now id s = elim s.answers [
  | false ↦ (some database_failed, s)
  | true ↦ elim (lookup id s.rows) [
    | none ↦ (some row_not_found, s)
    | some r ↦ elim r.deleted_at [
      | some t ↦ (none, s)
      | none ↦ (none, record s { rows = insert id (record r { deleted_at = some now }) s.rows })
    ]
  ]
]

-- DELETE FROM sessions WHERE id = ?, with the rows that hang on it.
unfoldable pub purge_row : Text → Store → Option StoreError × Store
purge_row id s = elim s.answers [
  | false ↦ (some database_failed, s)
  | true ↦ elim (lookup id s.rows) [
    | none ↦ (some row_not_found, s)
    | some r ↦ (none, record s { rows = delete id s.rows })
  ]
]
