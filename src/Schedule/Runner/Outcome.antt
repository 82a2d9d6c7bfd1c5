-- ===== src/Schedule/Runner/Outcome.antt =====
-- What a run leaves in the log.
use workhorse_agent.Prelude.{
  ℕ, ◌≡◌, ◌≢◌, refl, sym, ap, ◌∙◌, true, false, ◌==◌, List, [], ◌∷◌, ◌++◌, Option, none, some, Text,
  codes, any, any-append, arith,
}
use mathlib.Core.Path.{subst}
use workhorse_agent.Schedule.Runs.{
  ScheduleRun, RunStatus, running, finished_row, finish_rows, finish_run, create_run, prune,
  schedule_runs_kept,
}
use workhorse_agent.Schedule.Runs.Kept.{overtaken, prune-snoc}
use workhorse_agent.Schedule.Runner.{
  Trigger, status_of, close_run, opened, fail_run, record_run_error, drive, run_session,
  run_checked, run_once, run_error, run_output, is_cancelled,
}

finish_rows-snoc :
    (now id : ℕ) (status : RunStatus) (output error : Text) (rows : List ScheduleRun)
    (r : ScheduleRun)
    → r.id ≡ id
    → finish_rows now id status output error (rows ++ r ∷ [])
      ≡ finish_rows now id status output error rows ++ finished_row now status output error r ∷ []
unfolding finish_rows
finish_rows-snoc now id status output error [] r h = ground (arith, h)
finish_rows-snoc now id status output error (q ∷ rows) r h =
    ground (arith, finish_rows-snoc now id status output error rows r h)

any_last :
    (id : ℕ) (rows : List ScheduleRun) (r : ScheduleRun)
    → r.id ≡ id
    → any (λ q. q.id == id) (rows ++ r ∷ []) ≡ true
unfolding any
any_last id rows r h = ground (arith, h, any-append (λ q. q.id == id) rows (r ∷ []))

status_of-running : (err : Text) → status_of err ≢ running
unfolding status_of
status_of-running [] e = cc
status_of-running (c ∷ s) e = cc

-- The last row is this run's, and it is not running.
abbrev pub Closed : Trigger → List ScheduleRun → Type 0
Closed t rows =
    (older : List ScheduleRun) × (r : ScheduleRun) × (rows ≡ older ++ r ∷ [])
    × (r.id ≡ t.run_id)
    × (r.status ≢ running)
    × (r.completed_at ≡ some t.completed_at)

-- The last row is this run's, as it was opened.
abbrev pub LeftOpen : Trigger → List ScheduleRun → Type 0
LeftOpen t rows =
    (older : List ScheduleRun) × (r : ScheduleRun) × (rows ≡ older ++ r ∷ [])
    × (r.id ≡ t.run_id)
    × (r.status ≡ running)
    × (r.completed_at ≡ none)

close_run-finish_rows :
    (t : Trigger) (output err : Text) (rows : List ScheduleRun)
    → t.closes ≡ true
    → is_cancelled t.context ≡ false
    → any (λ q. q.id == t.run_id) rows ≡ true
    → close_run t output err rows
      ≡ finish_rows t.completed_at t.run_id (status_of err) output err rows
unfolding close_run finish_run
close_run-finish_rows t output err rows c a h = rw (c, a, h) refl

close_run-cancelled :
    (t : Trigger) (output err : Text) (rows : List ScheduleRun)
    → is_cancelled t.context ≡ true
    → close_run t output err rows ≡ rows
unfolding close_run finish_run
close_run-cancelled t output err rows a = ground (arith, a)

close_run-Closed :
    (t : Trigger) (output err : Text) (older rows : List ScheduleRun) (r : ScheduleRun)
    → t.closes ≡ true
    → is_cancelled t.context ≡ false
    → r.id ≡ t.run_id
    → rows ≡ older ++ r ∷ []
    → Closed t (close_run t output err rows)
unfolding finished_row
close_run-Closed t output err older rows r c a i e =
    let found = ap (any (λ q. q.id == t.run_id)) e ∙ any_last t.run_id older r i in
    let finish = finish_rows t.completed_at t.run_id (status_of err) output err in
    (
      finish older,
      finished_row t.completed_at (status_of err) output err r,
      close_run-finish_rows t output err rows c a found
          ∙ ap finish e
          ∙ finish_rows-snoc t.completed_at t.run_id (status_of err) output err older r i,
      i,
      status_of-running err,
      refl,
    )

-- A trigger is one run that is opened, the newest of its schedule, and then closed.
module _ (t : Trigger) (schedule_id : Text) (rows : List ScheduleRun)
    (P : List ScheduleRun → Type 0)
    (closed : (session_id output err : Text)
      → P (
          close_run t output err
            (prune schedule_id schedule_runs_kept (rows ++ opened t schedule_id session_id ∷ []))))
    (o : t.opens ≡ true) where
  record_run_error-closed : (err : Text) → P (record_run_error t schedule_id err rows)
  unfolding record_run_error create_run fail_run
  record_run_error-closed err =
      let r = opened t schedule_id [] in
      subst P (sym (ap (λ b. fail_run t err (create_run b r rows) rows) o)) (closed [] [] err)

  run_session-closed : (failure : Option Text) → P (run_session t schedule_id failure rows)
  unfolding run_session create_run drive
  run_session-closed (some err) = record_run_error-closed (codes "create session: " ++ err)
  run_session-closed none =
      let r = opened t schedule_id t.session_id in
      subst P (sym (ap (λ b. drive t (create_run b r rows) rows) o))
        (closed t.session_id (run_output t) (run_error t))

  run_checked-closed : (failure : Option Text) → P (run_checked t schedule_id failure rows)
  unfolding run_checked
  run_checked-closed (some err) = record_run_error-closed (codes "workdir not accessible: " ++ err)
  run_checked-closed none = run_session-closed t.session_error

  run_once-closed : P (run_once t schedule_id rows)
  unfolding run_once
  run_once-closed = run_checked-closed t.workdir_error

opened_last :
    (t : Trigger) (schedule_id session_id : Text) (rows : List ScheduleRun)
    → overtaken (opened t schedule_id []) rows ≡ false
    → (older : List ScheduleRun) × (prune schedule_id schedule_runs_kept
          (rows ++ opened t schedule_id session_id ∷ [])
        ≡ older ++ opened t schedule_id session_id ∷ [])
unfolding overtaken
opened_last t schedule_id session_id rows h = prune-snoc 19 rows (opened t schedule_id session_id) h

-- Where no run of the schedule is stamped with the trigger's start or a later one, a trigger does
-- not leave its run open while the database answers and the caller's context goes on: whether the
-- workdir is missing, the session cannot be created, the run's own time is over or the turn fails
-- or completes, the last row of the log is this run's, it is complete or failed, and it carries the
-- time of its end.
pub run_once-Closed :
    (t : Trigger) (schedule_id : Text) (rows : List ScheduleRun)
    → overtaken (opened t schedule_id []) rows ≡ false
    → t.opens ≡ true
    → t.closes ≡ true
    → is_cancelled t.context ≡ false
    → Closed t (run_once t schedule_id rows)
run_once-Closed t schedule_id rows h o c a =
    run_once-closed t schedule_id rows (Closed t)
      (λ session_id output err.
        let (older, e) = opened_last t schedule_id session_id rows h in
        close_run-Closed t output err older _ (opened t schedule_id session_id) c a refl e)
      o

-- Where the caller's context ends once the run is opened, the run stays open though the database
-- answers: whatever failed or completed, the last row of the log is this run's, still running and
-- without an end. The condition is that no run of the schedule is stamped with the trigger's start
-- or a later one.
pub run_once-LeftOpen :
    (t : Trigger) (schedule_id : Text) (rows : List ScheduleRun)
    → overtaken (opened t schedule_id []) rows ≡ false
    → t.opens ≡ true
    → is_cancelled t.context ≡ true
    → LeftOpen t (run_once t schedule_id rows)
run_once-LeftOpen t schedule_id rows h o a =
    run_once-closed t schedule_id rows (LeftOpen t)
      (λ session_id output err.
        let (older, e) = opened_last t schedule_id session_id rows h in
        (
          older,
          opened t schedule_id session_id,
          close_run-cancelled t output err _ a ∙ e,
          refl,
          refl,
          refl,
        ))
      o
