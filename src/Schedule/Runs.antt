-- ===== src/Schedule/Runs.antt =====
-- internal/store/sqlite/crud.go: the run log of the schedules, oldest run first. `now` is the clock
-- of the statement, `answers` whether the database does.
pub mod Newest
pub mod Kept
use workhorse_agent.Prelude.{
  ℕ, suc, Bool, true, false, not, ◌&&◌, ◌||◌, take, ◌==◌, List, [], ◌∷◌, ◌++◌, Option, none, some,
  Text, text_eq, leb, length, keep_if, any, if◌then◌else◌,
}

pub data RunStatus : Type 0 where
  running complete errored : RunStatus

pub record ScheduleRun : Type 0 where
  pub id : ℕ
  pub schedule_id : Text
  pub session_id : Text
  pub started_at : ℕ
  pub completed_at : Option ℕ
  pub status : RunStatus
  pub output_tail : Text
  pub error : Text

abbrev pub schedule_runs_kept : ℕ
schedule_runs_kept = 20

unfoldable pub of_schedule : Text → ScheduleRun → Bool
of_schedule id r = text_eq r.schedule_id id

unfoldable pub count_runs : Text → List ScheduleRun → ℕ
unfolding keep_if of_schedule
count_runs id rows = length (keep_if (of_schedule id) rows)

-- On equal times the older row stands first, as the index on (schedule_id, started_at DESC) yields
-- them.
unfoldable pub insert_by_start : ScheduleRun → List ScheduleRun → List ScheduleRun
insert_by_start r [] = r ∷ []
insert_by_start r (q ∷ qs) =
    let later = insert_by_start r qs in
    if leb q.started_at r.started_at then r ∷ q ∷ qs else q ∷ later

-- ORDER BY started_at DESC
unfoldable pub newest_first : List ScheduleRun → List ScheduleRun
unfolding insert_by_start
newest_first [] = []
newest_first (r ∷ rs) = insert_by_start r (newest_first rs)

-- SELECT id FROM schedule_runs WHERE schedule_id = ? ORDER BY started_at DESC LIMIT ?
unfoldable pub newest : Text → ℕ → List ScheduleRun → List ScheduleRun
unfolding newest_first keep_if of_schedule
newest id keep rows = take keep (newest_first (keep_if (of_schedule id) rows))

unfoldable pub has_run : ℕ → List ScheduleRun → Bool
has_run id rows = any (λ q. q.id == id) rows

-- DELETE FROM schedule_runs WHERE schedule_id = ? AND id NOT IN (…)
unfoldable pub prune : Text → ℕ → List ScheduleRun → List ScheduleRun
unfolding newest of_schedule keep_if has_run
prune id keep rows =
    let kept = newest id keep rows in
    keep_if (λ r. not (of_schedule id r) || has_run r.id kept) rows

-- The row gets the id that the table hands out, and the old ones of its schedule go.
unfoldable pub create_run : Bool → ScheduleRun → List ScheduleRun → Option (List ScheduleRun)
create_run answers r rows =
    if answers then some (prune r.schedule_id schedule_runs_kept (rows ++ r ∷ [])) else none

unfoldable pub finished_row : ℕ → RunStatus → Text → Text → ScheduleRun → ScheduleRun
finished_row now status output error r = record r {
  status = status;
  output_tail = output;
  error = error;
  completed_at = some now;
}

unfoldable pub finish_rows : ℕ → ℕ → RunStatus → Text → Text → List ScheduleRun → List ScheduleRun
unfolding finished_row
finish_rows now id status output error [] = []
finish_rows now id status output error (r ∷ rs) =
    (if r.id == id then finished_row now status output error r else r)
    ∷ finish_rows now id status output error rs

unfoldable pub finish_run :
    Bool → ℕ → ℕ → RunStatus → Text → Text → List ScheduleRun → Option (List ScheduleRun)
finish_run answers now id status output error rows =
    if answers && any (λ r. r.id == id) rows
    then some (finish_rows now id status output error rows)
    else none
