-- ===== src/Schedule/Worker/OneShot.antt =====
-- How often a one-shot fires.
use workhorse_agent.Prelude.{
  ℕ, ◌+◌, ◌≤◌, ◌≡◌, ◌∙◌, ap, refl, Bool, true, false, not, List, [], ◌∷◌, ◌++◌, none, some, Text,
  text_eq, text_eq_iff, keep_if, any, arith, if◌then◌else◌, All, Bool-cases, inl, inr,
}
use workhorse_agent.Schedule.Cron.{LocalTime}
use workhorse_agent.Schedule.Rows.{
  Schedule, has_id, touch_rows, touch_schedule_run, create_schedule, delete_schedule,
}
use workhorse_agent.Schedule.Worker.Counts.{
  firings, armed, recurs, firings-append, recurs-touch_rows, armed-touch_rows-le, armed-touch_rows,
  should_fire-enabled, armed_head, recurs-snoc, armed-snoc, recurs-keep_if, armed-keep_if-le,
}
use workhorse_agent.Schedule.Worker.{
  World, Tick, Event, ticks, creates, deletes, should_fire, touch_result, visit, visit_all, tick,
  keep_rows, step, run,
}

-- What is left of the one firing, for a table and for the rows that a tick has still to visit.
abbrev Budget : Text → World → List Schedule → Type 0
Budget id w rest =
    (recurs id w.rows ≡ false)
    × (firings id w.fired + armed id w.rows ≤ 1)
    × (firings id w.fired + armed id rest ≤ 1)

fire-Budget :
    (id : Text) (t : Tick) (w : World) (s : Schedule) (rest : List Schedule)
    → s.enabled ≡ true
    → Budget id w (s ∷ rest)
    → Budget id (touch_result w s.id t.now (some (touch_rows s.id t.now w.rows))) rest
unfolding touch_result
fire-Budget id t w s rest e (a, b, c) =
    let r = recurs-touch_rows id s.id t.now w.rows ∙ a in
    let grown = firings-append id s.id t.now w.fired in
    let head = armed_head id s rest in
    elim (Bool-cases (text_eq s.id id)) [
      | inl same ↦
          let here : s.id ≡ id = (text_eq_iff s.id id).0 same in
          let gone : armed id (touch_rows s.id t.now w.rows) ≡ 0 =
            ap (λ i. armed id (touch_rows i t.now w.rows)) here
            ∙ armed-touch_rows id t.now w.rows a in
          (
            r,
            ground (arith, grown, head, same, e, c, gone),
            ground (arith, grown, head, same, e, c),
          )
      | inr other ↦ (
        r,
        ground (arith, grown, b, other, armed-touch_rows-le id s.id t.now w.rows),
        ground (arith, grown, head, other, c),
      )
    ]

skip-Budget :
    (id : Text) (w : World) (s : Schedule) (rest : List Schedule)
    → Budget id w (s ∷ rest)
    → Budget id w rest
skip-Budget id w s rest (a, b, c) = (a, b, omega (arith, c, armed_head id s rest))

touched-Budget :
    (id : Text) (t : Tick) (w : World) (s : Schedule) (rest : List Schedule) (found : Bool)
    → s.enabled ≡ true
    → Budget id w (s ∷ rest)
    → Budget id
        (touch_result w s.id t.now (if found then some (touch_rows s.id t.now w.rows) else none))
        rest
unfolding touch_result
touched-Budget id t w s rest true e b = fire-Budget id t w s rest e b
touched-Budget id t w s rest false e b = skip-Budget id w s rest b

visited-Budget :
    (id : Text) (t : Tick) (w : World) (s : Schedule) (rest : List Schedule) (fire touches : Bool)
    → (fire ≡ true → s.enabled ≡ true)
    → Budget id w (s ∷ rest)
    → Budget id
        (if fire
          then touch_result w s.id t.now
              (if touches then touch_schedule_run s.id t.now w.rows else none)
          else w)
        rest
unfolding touch_schedule_run touch_result
visited-Budget id t w s rest false touches e b = skip-Budget id w s rest b
visited-Budget id t w s rest true false e b = skip-Budget id w s rest b
visited-Budget id t w s rest true true e b =
    touched-Budget id t w s rest (any (has_id s.id) w.rows) (e refl) b

visit_all-Budget :
    (local : ℕ → LocalTime) (id : Text) (t : Tick) (w : World) (rest : List Schedule)
    → Budget id w rest
    → Budget id (visit_all local t w rest) []
unfolding visit_all visit
visit_all-Budget local id t w [] b = b
visit_all-Budget local id t w (s ∷ rest) b = visit_all-Budget local id t (visit local t w s) rest (
    visited-Budget id t w s rest (should_fire local s t.now) (t.touches s.id)
      (should_fire-enabled local s t.now) b)

-- Between ticks.
abbrev Spent : Text → World → Type 0
Spent id w = (recurs id w.rows ≡ false) × (firings id w.fired + armed id w.rows ≤ 1)

tick-Spent :
    (local : ℕ → LocalTime) (id : Text) (t : Tick) (w : World)
    → Spent id w
    → Spent id (tick local t w)
unfolding tick
tick-Spent local id t w (a, b) =
    elim t.lists as (λ l. Spent id (if l then visit_all local t w w.rows else w)) [
      | true ↦ let (c, d, e) = visit_all-Budget local id t w w.rows (a, b, b) in (c, d)
      | false ↦ (a, b)
    ]

created-Spent :
    (id : Text) (w : World) (s : Schedule)
    → text_eq s.id id ≡ false
    → Spent id w
    → Spent id (keep_rows w (create_schedule s w.rows))
unfolding keep_rows create_schedule
created-Spent id w s other (a, b) =
    elim (any (has_id s.id) w.rows)
      as (λ taken. Spent id (keep_rows w (if taken then none else some (w.rows ++ s ∷ [])))) [
        | true ↦ (a, b)
        | false ↦
            (recurs-snoc id s w.rows other ∙ a, omega (arith, b, armed-snoc id s w.rows other))
      ]

deleted-Spent :
    (id other : Text) (w : World)
    → Spent id w
    → Spent id (keep_rows w (delete_schedule other w.rows))
unfolding keep_rows delete_schedule
deleted-Spent id other w (a, b) =
    let keeps : Schedule → Bool = λ r. not (has_id other r) in
    elim (any (has_id other) w.rows)
      as (λ found. Spent id (keep_rows w (if found then some (keep_if keeps w.rows) else none))) [
        | false ↦ (a, b)
        | true ↦
            (recurs-keep_if id keeps w.rows a, omega (arith, b, armed-keep_if-le id keeps w.rows))
      ]

unfoldable pub creates_id : Text → Event → Bool
unfolding has_id
creates_id id (ticks t) = false
creates_id id (creates s) = has_id id s
creates_id id (deletes other) = false

step-Spent :
    (local : ℕ → LocalTime) (id : Text) (w : World) (e : Event)
    → creates_id id e ≡ false
    → Spent id w
    → Spent id (step local w e)
unfolding step creates_id has_id
step-Spent local id w (ticks t) h b = tick-Spent local id t w b
step-Spent local id w (creates s) h b = created-Spent id w s h b
step-Spent local id w (deletes other) h b = deleted-Spent id other w b

run-Spent :
    (local : ℕ → LocalTime) (id : Text) (w : World) (es : List Event)
    → All (λ e. creates_id id e ≡ false) es
    → Spent id w
    → Spent id (run local w es)
unfolding run
run-Spent local id w [] h b = b
run-Spent local id w (e ∷ es) (h, hs) b =
    run-Spent local id (step local w e) es hs (step-Spent local id w e h b)

-- A one-shot never fires twice, whatever the ticks' instants, however the clock jumps, and
-- whichever calls of the database fail: provided that the table has at most one row with its id,
-- that the row has a run_at, and that no new schedule takes its id, all the ticks together start
-- it at most once.
pub run_one_shot :
    (local : ℕ → LocalTime) (id : Text) (rows : List Schedule) (es : List Event)
    → recurs id rows ≡ false
    → armed id rows ≤ 1
    → All (λ e. creates_id id e ≡ false) es
    → firings id (run local (record { rows = rows; fired = [] }) es).fired ≤ 1
unfolding firings keep_if
run_one_shot local id rows es a b h =
    let (c, d) =
      run-Spent local id (record { rows = rows; fired = [] }) es h (a, omega (arith, b)) in
    omega (arith, d)
