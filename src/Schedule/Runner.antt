-- ===== src/Schedule/Runner.antt =====
-- internal/schedule/runner.go and run.go. The pump is what it shows the collector: the events up to
-- the end of the turn.
pub mod Outcome
pub mod Tail
use workhorse_agent.Prelude.{
  ℕ, ◌-◌, ◌*◌, ◌/◌, ◌%◌, Bool, true, false, not, ◌&&◌, ◌||◌, ◌==◌, List, [], ◌∷◌, ◌++◌, Option,
  none, some, Text, codes, is_empty, leb, length, drop, if◌then◌else◌,
}
use workhorse_agent.Schedule.Runs.{
  ScheduleRun, RunStatus, running, complete, errored, create_run, finish_run,
}

-- The fields that observe reads, where they are strings.
pub data Event : Type 0 where
  text_delta : Option Text → Event
  text_done : Event
  error_event : (message code : Option Text) → Event
  other_event : Event

pub record Collector : Type 0 where
  pub cur_accum : Text
  pub last_final : Text
  pub err_msg : Text

abbrev pub new_collector : Collector
new_collector = record { cur_accum = []; last_final = []; err_msg = [] }

unfoldable pub error_code : Option Text → Collector → Collector
error_code none c = c
error_code (some code) c = record c { err_msg = code }

unfoldable pub observe : Collector → Event → Collector
unfolding error_code
observe c (text_delta none) = c
observe c (text_delta (some d)) = record c { cur_accum = c.cur_accum ++ d }
observe c text_done =
    if is_empty c.cur_accum then c else record c { last_final = c.cur_accum; cur_accum = [] }
observe c (error_event none code) = error_code code c
observe c (error_event (some msg) code) =
    if is_empty msg then error_code code c else record c { err_msg = msg }
observe c other_event = c

unfoldable pub observe_all : Collector → List Event → Collector
unfolding observe
observe_all c [] = c
observe_all c (e ∷ es) = observe_all (observe c e) es

unfoldable pub final_text : Collector → Text
final_text c = if is_empty c.last_final then c.cur_accum else c.last_final

-- s[start] & 0xC0 == 0x80
abbrev pub is_continuation : ℕ → Bool
is_continuation b = ((b / 64) % 4) == 2

unfoldable pub skip_continuation : Text → Text
skip_continuation [] = []
skip_continuation (b ∷ s) =
    let rest = skip_continuation s in if is_continuation b then rest else b ∷ s

unfoldable pub tail_text : ℕ → Text → Text
unfolding skip_continuation
tail_text max s =
    if (max == 0) || leb (length s) max then s else skip_continuation (drop (length s - max) s)

abbrev pub output_tail_max_bytes : ℕ
output_tail_max_bytes = 64 * 1024

-- What has become of the context of the run by its end: it is the caller's with a timeout.
pub data Context : Type 0 where
  alive timed_out cancelled : Context

unfoldable pub has_ended : Context → Bool
has_ended alive = false
has_ended timed_out = true
has_ended cancelled = true

unfoldable pub is_cancelled : Context → Bool
is_cancelled cancelled = true
is_cancelled alive = false
is_cancelled timed_out = false

-- What RunOnce meets: the error of the workdir or of CreateSession, the new session, the id that
-- the log hands out, whether the log's statements answer under a context that has not ended, whether
-- the inbox takes the message before the run's context ends, what the pump observes, and the context
-- after it.
pub record Trigger : Type 0 where
  pub workdir_error : Option Text
  pub session_error : Option Text
  pub session_id : Text
  pub run_id : ℕ
  pub started_at : ℕ
  pub completed_at : ℕ
  pub opens : Bool
  pub closes : Bool
  pub delivered : Bool
  pub events : List Event
  pub context : Context

unfoldable pub status_of : Text → RunStatus
status_of err = if is_empty err then complete else errored

abbrev kept : List ScheduleRun → Option (List ScheduleRun) → List ScheduleRun
kept rows none = rows
kept rows (some rows') = rows'

-- The statement runs under the caller's context, and fails where that has ended; a failure is only
-- logged.
unfoldable pub close_run : Trigger → Text → Text → List ScheduleRun → List ScheduleRun
unfolding status_of is_cancelled
close_run t output err rows = kept rows (
    finish_run (t.closes && not (is_cancelled t.context)) t.completed_at t.run_id (status_of err)
      output err rows)

abbrev pub opened : Trigger → Text → Text → ScheduleRun
opened t schedule_id session_id = record {
  id = t.run_id;
  schedule_id = schedule_id;
  session_id = session_id;
  started_at = t.started_at;
  completed_at = none;
  status = running;
  output_tail = [];
  error = [];
}

unfoldable pub fail_run :
    Trigger → Text → Option (List ScheduleRun) → List ScheduleRun → List ScheduleRun
fail_run t err none rows = rows
fail_run t err (some rows') rows = close_run t [] err rows'

unfoldable pub record_run_error : Trigger → Text → Text → List ScheduleRun → List ScheduleRun
record_run_error t schedule_id err rows =
    fail_run t err (create_run t.opens (opened t schedule_id []) rows) rows

-- The error and the output of a run that was opened.
unfoldable pub run_error : Trigger → Text
unfolding codes observe_all has_ended
run_error t =
    if not t.delivered || has_ended t.context
    then codes "cancelled"
    else (observe_all new_collector t.events).err_msg

unfoldable pub run_output : Trigger → Text
unfolding final_text observe_all tail_text
run_output t =
    let text = final_text (observe_all new_collector t.events) in
    if is_empty (run_error t) then tail_text output_tail_max_bytes text else text

unfoldable pub drive : Trigger → Option (List ScheduleRun) → List ScheduleRun → List ScheduleRun
drive t none rows = rows
drive t (some rows') rows = close_run t (run_output t) (run_error t) rows'

unfoldable pub run_session : Trigger → Text → Option Text → List ScheduleRun → List ScheduleRun
run_session t schedule_id (some err) rows =
    record_run_error t schedule_id (codes "create session: " ++ err) rows
run_session t schedule_id none rows =
    drive t (create_run t.opens (opened t schedule_id t.session_id) rows) rows

unfoldable pub run_checked : Trigger → Text → Option Text → List ScheduleRun → List ScheduleRun
run_checked t schedule_id (some err) rows =
    record_run_error t schedule_id (codes "workdir not accessible: " ++ err) rows
run_checked t schedule_id none rows = run_session t schedule_id t.session_error rows

unfoldable pub run_once : Trigger → Text → List ScheduleRun → List ScheduleRun
run_once t schedule_id rows = run_checked t schedule_id t.workdir_error rows
