-- ===== src/Tests/Schedule.antt =====
-- Cron fields and a one-shot schedule.
use workhorse_agent.Prelude.{
  ℕ, ◌+◌, ◌-◌, ◌*◌, ◌/◌, ◌%◌, ◌^◌, ◌≡◌, ◌≤◌, ◌<◌, ◌↔◌, refl, true, false, none, some, List, [], ◌∷◌,
  Text, codes, text_eq, arith, any, keep_if,
}
use workhorse_agent.Schedule.Cron.{
  LocalTime, range, step_set, step_fuel, member, parse_part, parse_expr, parse_field, from_fields,
  plain_spaces, fields_from, bounds, atoi, cut, split_by, fires, matches, minute_ns, truncate,
  next_match, search_from,
}
use workhorse_agent.Schedule.Cron.Steps.{step_set_iff}
use workhorse_agent.Schedule.Cron.Next.{next_match-found, next_match-skipped, stop}
use workhorse_agent.Schedule.Rows.{Schedule}
use workhorse_agent.Schedule.Worker.{Event, ticks, run}
use workhorse_agent.Schedule.Worker.Counts.{firings, armed, recurs}
use workhorse_agent.Schedule.Worker.OneShot.{creates_id, run_one_shot}

step_set_iff_example :
    (member 30 (step_set step_fuel 5 59 25) ≡ true) ↔ ((k : ℕ) × (30 ≡ 5 + k * 25) × (30 ≤ 59))
step_set_iff_example =
    step_set_iff 5 59 25 30 (omega arith) (omega arith) (omega arith) (omega arith)

quarter_hours : parse_part (range 0 59) (codes "*/15") ≡ some (0 ∷ 15 ∷ 30 ∷ 45 ∷ [])
unfolding codes parse_part bounds cut step_set atoi
quarter_hours = refl

-- A step near 2 ^ 63 wraps around and comes back below its start.
huge_step : member 57 (step_set step_fuel 59 59 (2 ^ 63 - 1)) ≡ true
unfolding step_set member any
huge_step = refl

-- A zone in which every instant is Thursday the first of January, past midnight.
abbrev clock : ℕ → LocalTime
clock t = record { minute = (t / minute_ns) % 60; hour = 0; day = 1; month = 1; weekday = 4 }

abbrev third_minute : Text
third_minute = codes "3 * * * *"

next_match-found_example :
    (k : ℕ) × (3 * minute_ns ≡ truncate (minute_ns + 7) + k * minute_ns)
    × (3 * minute_ns < (minute_ns + 7) + 10_080 * minute_ns)
    × (matches third_minute (clock (3 * minute_ns)) ≡ true)
unfolding codes next_match search_from matches parse_expr from_fields fields_from plain_spaces
    parse_field parse_part bounds cut split_by step_set atoi fires member any
next_match-found_example = next_match-found clock third_minute (minute_ns + 7) (3 * minute_ns) refl

next_match-skipped_example :
    matches third_minute (clock (truncate (minute_ns + 7) + 1 * minute_ns)) ≡ false
unfolding codes next_match search_from matches parse_expr from_fields fields_from plain_spaces
    parse_field parse_part bounds cut split_by step_set atoi fires member any stop
next_match-skipped_example =
    next_match-skipped clock third_minute (minute_ns + 7) 1 (some (3 * minute_ns)) refl
      (omega arith)

abbrev once : Schedule
once = record {
  id = 1 ∷ [];
  name = [];
  instruction = [];
  cron = [];
  run_at = some 60_000_000;
  workdir = [];
  enabled = true;
  created_at = 0;
  last_run_at = none;
}

-- It is due from the second minute on; the first touch fails and the clock jumps back later.
abbrev history : List Event
history =
    ticks (record { now = 5; lists = true; touches = λ id. true })
    ∷ ticks (record { now = 2 * minute_ns; lists = true; touches = λ id. false })
    ∷ ticks (record { now = 3 * minute_ns; lists = true; touches = λ id. true })
    ∷ ticks (record { now = 2 * minute_ns; lists = true; touches = λ id. true })
    ∷ []

run_one_shot_example :
    firings (1 ∷ []) (run clock (record { rows = once ∷ []; fired = [] }) history).fired ≤ 1
unfolding recurs armed any keep_if creates_id text_eq
run_one_shot_example =
    run_one_shot clock (1 ∷ []) (once ∷ []) history refl (omega arith)
      (refl, (refl, (refl, (refl, tt))))
