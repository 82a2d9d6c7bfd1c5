-- ===== src/Schedule/Worker.antt =====
-- internal/schedule/worker.go. Instants are nanoseconds; RunOnce, started in a goroutine of its
-- own, is a firing.
pub mod Counts
pub mod OneShot
use workhorse_agent.Prelude.{
  ℕ, ◌≤◌, ◌==◌, leb, Bool, true, false, ◌&&◌, not, List, [], ◌∷◌, ◌++◌, Option, none, some, Text,
  is_empty, if◌then◌else◌, is_some,
}
use workhorse_agent.Schedule.Cron.{LocalTime, matches, truncate}
use workhorse_agent.Schedule.Rows.{
  Schedule, from_micros, create_schedule, delete_schedule, touch_schedule_run,
}

abbrev pub same_minute : ℕ → ℕ → Bool
same_minute a b = truncate a == truncate b

unfoldable pub ran_in_minute : Option ℕ → ℕ → Bool
ran_in_minute none now = false
ran_in_minute (some last) now = same_minute (from_micros last) now

-- The minute of a one-shot has come, and it has never run.
unfoldable pub one_shot_due : Schedule → Option ℕ → ℕ → Bool
one_shot_due s none now = false
one_shot_due s (some at) now =
    leb (truncate (from_micros at)) (truncate now) && not (is_some s.last_run_at)

-- A tick's instant, and which calls of the database answer.
pub record Tick : Type 0 where
  pub now : ℕ
  pub lists : Bool
  pub touches : Text → Bool

-- The table, and the schedules that have been handed to the runner with the instant of the tick.
pub record World : Type 0 where
  pub rows : List Schedule
  pub fired : List (Text × ℕ)

-- Touch before firing; a schedule that cannot be touched does not fire.
unfoldable pub touch_result : World → Text → ℕ → Option (List Schedule) → World
touch_result w id now none = w
touch_result w id now (some rows) = record { rows = rows; fired = w.fired ++ (id, now) ∷ [] }

module _ (local : ℕ → LocalTime) where
  unfoldable pub should_fire : Schedule → ℕ → Bool
  unfolding ran_in_minute one_shot_due matches
  should_fire s now =
      if not s.enabled
      then false
      else if ran_in_minute s.last_run_at now
      then false
      else if not (is_empty s.cron)
      then matches s.cron (local now)
      else one_shot_due s s.run_at now

  unfoldable pub visit : Tick → World → Schedule → World
  visit t w s =
      if should_fire s t.now
      then touch_result w s.id t.now
          (if t.touches s.id then touch_schedule_run s.id t.now w.rows else none)
      else w

  -- The loop runs over the rows that the listing returned.
  unfoldable pub visit_all : Tick → World → List Schedule → World
  visit_all t w [] = w
  visit_all t w (s ∷ ss) = visit_all t (visit t w s) ss

  unfoldable pub tick : Tick → World → World
  tick t w = if t.lists then visit_all t w w.rows else w

-- A tick, or a call of the schedule tools between two ticks.
pub data Event : Type 0 where
  ticks : Tick → Event
  creates : Schedule → Event
  deletes : Text → Event

unfoldable pub keep_rows : World → Option (List Schedule) → World
keep_rows w none = w
keep_rows w (some rows) = record w { rows = rows }

unfoldable pub step : (ℕ → LocalTime) → World → Event → World
step local w (ticks t) = tick local t w
step local w (creates s) = keep_rows w (create_schedule s w.rows)
step local w (deletes id) = keep_rows w (delete_schedule id w.rows)

unfoldable pub run : (ℕ → LocalTime) → World → List Event → World
run local w [] = w
run local w (e ∷ es) = run local (step local w e) es
