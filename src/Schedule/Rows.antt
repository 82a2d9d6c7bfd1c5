-- ===== src/Schedule/Rows.antt =====
-- internal/store/sqlite/crud.go: the schedules table. Times in it are microseconds; NULL text is
-- the empty text.
use workhorse_agent.Prelude.{
  ℕ, ◌*◌, ◌/◌, Bool, false, List, [], ◌∷◌, ◌++◌, Option, none, some, Text, text_eq, if◌then◌else◌,
  keep_if, not, any, is_some,
}

pub record Schedule : Type 0 where
  pub id : Text
  pub name : Text
  pub instruction : Text
  pub cron : Text
  pub run_at : Option ℕ
  pub workdir : Text
  pub enabled : Bool
  pub created_at : ℕ
  pub last_run_at : Option ℕ

abbrev pub to_micros : ℕ → ℕ
to_micros t = t / 1000

abbrev pub from_micros : ℕ → ℕ
from_micros n = n * 1000

unfoldable pub has_id : Text → Schedule → Bool
has_id id r = text_eq r.id id

-- A key that is taken makes the INSERT fail. The new row is the newest.
unfoldable pub create_schedule : Schedule → List Schedule → Option (List Schedule)
unfolding has_id any
create_schedule s rows = if any (has_id s.id) rows then none else some (rows ++ s ∷ [])

unfoldable pub delete_schedule : Text → List Schedule → Option (List Schedule)
unfolding has_id any keep_if
delete_schedule id rows =
    if any (has_id id) rows then some (keep_if (λ r. not (has_id id r)) rows) else none

-- SET last_run_at = at, enabled = CASE WHEN run_at IS NOT NULL THEN 0 ELSE enabled END
unfoldable pub touched : ℕ → Schedule → Schedule
touched at r = record r {
  last_run_at = some (to_micros at);
  enabled = if is_some r.run_at then false else r.enabled;
}

unfoldable pub touch_rows : Text → ℕ → List Schedule → List Schedule
unfolding touched has_id
touch_rows id at [] = []
touch_rows id at (r ∷ rs) = (if has_id id r then touched at r else r) ∷ touch_rows id at rs

unfoldable pub touch_schedule_run : Text → ℕ → List Schedule → Option (List Schedule)
unfolding touch_rows any
touch_schedule_run id at rows = if any (has_id id) rows then some (touch_rows id at rows) else none
