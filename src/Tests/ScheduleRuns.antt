-- ===== src/Tests/ScheduleRuns.antt =====
-- One trigger of a schedule, and the log that it writes.
use workhorse_agent.Prelude.{
  ◌≡◌, ◌≤◌, ◌⊎◌, ℕ, refl, true, not, none, some, List, [], ◌∷◌, ◌++◌, text_eq, keep_if, any,
}
use workhorse_agent.Schedule.Runs.{
  ScheduleRun, running, complete, errored, of_schedule, count_runs, insert_by_start, newest_first,
  newest, has_run, prune, create_run, finish_run, finish_rows, finished_row,
}
use workhorse_agent.Schedule.Runs.Kept.{overtaken, create_run-kept}
use workhorse_agent.Schedule.Runner.{
  Trigger, alive, cancelled, is_cancelled, has_ended, text_delta, text_done, error_event, tail_text,
  skip_continuation, run_once, run_checked, run_session, drive, run_output, run_error, observe_all,
  observe, final_text, close_run, status_of,
}
use workhorse_agent.Schedule.Runner.Outcome.{Closed, LeftOpen, run_once-Closed, run_once-LeftOpen}

abbrev old : ScheduleRun
old = record {
  id = 1;
  schedule_id = 5 ∷ [];
  session_id = [];
  started_at = 10;
  completed_at = some 20;
  status = complete;
  output_tail = [];
  error = [];
}

abbrev new : ScheduleRun
new = record old { id = 2; started_at = 30; completed_at = none; status = running }

create_run-kept_example :
    (count_runs (5 ∷ []) (old ∷ new ∷ []) ≤ 20)
    × ((20 ≤ count_runs (5 ∷ []) (old ∷ [])) ⊎ (old ∷ new ∷ [] ≡ (old ∷ []) ++ new ∷ []))
    × ((overtaken new (old ∷ []) ≡ true)
        ⊎ ((older : List ScheduleRun) × (old ∷ new ∷ [] ≡ older ++ new ∷ [])))
    × (keep_if (λ q. not (of_schedule (5 ∷ []) q)) (old ∷ new ∷ [])
        ≡ keep_if (λ q. not (of_schedule (5 ∷ []) q)) (old ∷ []))
unfolding create_run prune newest newest_first insert_by_start has_run any of_schedule count_runs
    keep_if text_eq
create_run-kept_example =
    create_run-kept true new (old ∷ []) (old ∷ new ∷ []) (refl, (refl, tt)) refl

-- A clock that is set back: the run that is opened is the one that is deleted.
abbrev late : ℕ → ScheduleRun
late n = record old { id = n; started_at = 40 }

set_back : prune (5 ∷ []) 2 (late 3 ∷ late 4 ∷ new ∷ []) ≡ late 3 ∷ late 4 ∷ []
unfolding prune newest newest_first insert_by_start has_run any of_schedule keep_if text_eq
set_back = refl

-- The model says "hi" and the turn then fails.
abbrev trigger : Trigger
trigger = record {
  workdir_error = none;
  session_error = none;
  session_id = 7 ∷ [];
  run_id = 2;
  started_at = 30;
  completed_at = 40;
  opens = true;
  closes = true;
  delivered = true;
  events = text_delta (some (104 ∷ 105 ∷ [])) ∷ text_done ∷ error_event (some (9 ∷ [])) none ∷ [];
  context = alive;
}

run_once-Closed_example : Closed trigger (run_once trigger (5 ∷ []) (old ∷ []))
unfolding overtaken any of_schedule text_eq is_cancelled
run_once-Closed_example = run_once-Closed trigger (5 ∷ []) (old ∷ []) refl refl refl refl

abbrev shut_down : Trigger
shut_down = record trigger { context = cancelled }

run_once-LeftOpen_example : LeftOpen shut_down (run_once shut_down (5 ∷ []) (old ∷ []))
unfolding overtaken any of_schedule text_eq is_cancelled
run_once-LeftOpen_example = run_once-LeftOpen shut_down (5 ∷ []) (old ∷ []) refl refl refl

failed_run :
    run_once trigger (5 ∷ []) (old ∷ [])
    ≡ old
      ∷ record {
        id = 2;
        schedule_id = 5 ∷ [];
        session_id = 7 ∷ [];
        started_at = 30;
        completed_at = some 40;
        status = errored;
        output_tail = 104 ∷ 105 ∷ [];
        error = 9 ∷ [];
      }
      ∷ []
unfolding run_once run_checked run_session drive create_run prune newest newest_first
    insert_by_start has_run is_cancelled has_ended of_schedule count_runs keep_if text_eq finish_run
    finish_rows finished_row run_output run_error observe_all observe final_text close_run status_of
    any
failed_run = refl

cut_rune : tail_text 3 (97 ∷ 195 ∷ 169 ∷ 98 ∷ 99 ∷ []) ≡ 98 ∷ 99 ∷ []
unfolding tail_text skip_continuation
cut_rune = refl
