-- ===== src/Schedule/Runs/Kept.antt =====
-- How many runs the log keeps, and which.
use workhorse_agent.Prelude.{
  ℕ, suc, ◌≤◌, ◌≡◌, ◌⊎◌, refl, sym, ap, Bool-cases, inl, inr, keep_if-append, ◌∙◌, Bool, true,
  false, ◌&&◌, ◌||◌, not, List, [], ◌∷◌, ◌++◌, Text, text_eq_self, leb, leb-false, keep_if, arith,
  some, any, any-keep_if, length, take, length-append,
}
use mathlib.Core.List.{append-nil}
use workhorse_agent.Schedule.Runs.{
  ScheduleRun, of_schedule, count_runs, insert_by_start, newest_first, newest, has_run, prune,
  create_run,
}
use workhorse_agent.Schedule.Runs.Newest.{
  Distinct, length-newest_first, take_all, others_kept, count_runs-prune-le, kept_whole, in_place,
  rows_named,
}

-- Where the log has room nothing is deleted.
prune-room :
    (id : Text) (keep : ℕ) (rows : List ScheduleRun)
    → count_runs id rows ≤ keep
    → prune id keep rows ≡ rows
unfolding count_runs prune newest
prune-room id keep rows h =
    let mine = newest_first (keep_if (of_schedule id) rows) in
    ap (λ ks. keep_if (λ r. not (of_schedule id r) || has_run r.id ks) rows)
      (take_all keep mine (omega (arith, h, length-newest_first (keep_if (of_schedule id) rows))))
    ∙ kept_whole (λ r. not (of_schedule id r) || has_run r.id mine) rows
        (rows_named id rows rows (in_place (of_schedule id) [] rows rows refl))

-- A last row that is newer than the others comes first.
newest_first-snoc :
    (rs : List ScheduleRun) (r : ScheduleRun)
    → any (λ q. leb r.started_at q.started_at) rs ≡ false
    → (older : List ScheduleRun) × (newest_first (rs ++ r ∷ []) ≡ r ∷ older)
unfolding newest_first insert_by_start any
newest_first-snoc [] r h = ([], refl)
newest_first-snoc (q ∷ rs) r h =
    let (older, e) = newest_first-snoc rs r (ground (arith, h)) in
    (insert_by_start q older, ground (arith, h, e, ap (insert_by_start q) e))

-- Some run of the schedule starts no earlier than this one.
unfoldable pub overtaken : ScheduleRun → List ScheduleRun → Bool
unfolding of_schedule
overtaken r rows = any (λ q. of_schedule r.schedule_id q && leb r.started_at q.started_at) rows

mine-snoc :
    (rows : List ScheduleRun) (r : ScheduleRun)
    → keep_if (of_schedule r.schedule_id) (rows ++ r ∷ [])
      ≡ keep_if (of_schedule r.schedule_id) rows ++ r ∷ []
unfolding keep_if of_schedule
mine-snoc rows r =
    keep_if-append (of_schedule r.schedule_id) rows (r ∷ [])
    ∙ ap (λ l. keep_if (of_schedule r.schedule_id) rows ++ l)
        (ground (arith, text_eq_self r.schedule_id))

pub prune-snoc :
    (keep : ℕ) (rows : List ScheduleRun) (r : ScheduleRun)
    → overtaken r rows ≡ false
    → (older : List ScheduleRun) × (prune r.schedule_id (suc keep) (rows ++ r ∷ [])
        ≡ older ++ r ∷ [])
unfolding prune newest has_run overtaken any keep_if
prune-snoc keep rows r h =
    let mine = of_schedule r.schedule_id in
    let (older, e) =
      newest_first-snoc (keep_if mine rows) r
        (any-keep_if (λ q. leb r.started_at q.started_at) mine rows ∙ h) in
    let t : List ScheduleRun → ScheduleRun → Bool = λ ks q. not (mine q) || has_run q.id ks in
    (
      keep_if (t (r ∷ take keep older)) rows,
      ap (λ l. keep_if (t (take (suc keep) l)) (rows ++ r ∷ []))
            (ap newest_first (mine-snoc rows r) ∙ e)
          ∙ keep_if-append (t (r ∷ take keep older)) rows (r ∷ [])
          ∙ ap (λ l. keep_if (t (r ∷ take keep older)) rows ++ l) (ground arith),
    )

room :
    (r : ScheduleRun) (rows after : List ScheduleRun)
    → prune r.schedule_id 20 (rows ++ r ∷ []) ≡ after
    → (20 ≤ count_runs r.schedule_id rows) ⊎ (after ≡ rows ++ r ∷ [])
unfolding count_runs
room r rows after e = elim (Bool-cases (leb 20 (count_runs r.schedule_id rows))) [
  | inl full ↦ inl (ground (arith, full))
  | inr free ↦ inr (
      sym e
      ∙ prune-room r.schedule_id 20 (rows ++ r ∷ []) (
          omega (
            arith,
            leb-false 20 (count_runs r.schedule_id rows) free,
            ap length (mine-snoc rows r),
            length-append (keep_if (of_schedule r.schedule_id) rows) (r ∷ []),
          )))
]

last :
    (r : ScheduleRun) (rows after : List ScheduleRun)
    → prune r.schedule_id 20 (rows ++ r ∷ []) ≡ after
    → (overtaken r rows ≡ true) ⊎ ((older : List ScheduleRun) × (after ≡ older ++ r ∷ []))
last r rows after e = elim (Bool-cases (overtaken r rows)) [
  | inl o ↦ inl o
  | inr n ↦ let (older, l) = prune-snoc 19 rows r n in inr (older, sym e ∙ l)
]

others :
    (r : ScheduleRun) (rows after : List ScheduleRun)
    → prune r.schedule_id 20 (rows ++ r ∷ []) ≡ after
    → keep_if (λ q. not (of_schedule r.schedule_id q)) after
      ≡ keep_if (λ q. not (of_schedule r.schedule_id q)) rows
unfolding prune keep_if of_schedule
others r rows after e =
    let all = rows ++ r ∷ [] in
    let mine : ScheduleRun → Bool = of_schedule r.schedule_id in
    let other : ScheduleRun → Bool = λ q. not (mine q) in
    let gone : keep_if other (r ∷ []) ≡ [] = ground (arith, text_eq_self r.schedule_id) in
    ap (keep_if other) (sym e)
    ∙ others_kept mine (λ q. has_run q.id (newest r.schedule_id 20 all)) all
    ∙ keep_if-append other rows (r ∷ [])
    ∙ ap (λ l. keep_if other rows ++ l) gone
    ∙ append-nil (keep_if other rows)

-- Over a table whose ids are distinct, opening a run leaves at most twenty runs of its schedule in
-- the log. Where the schedule had less than twenty, nothing is deleted; the new run is the last
-- row, unless a run of the schedule is stamped with the same or a later start; and the runs of the
-- other schedules stay, in the same order.
pub create_run-kept :
    (answers : Bool) (r : ScheduleRun) (rows after : List ScheduleRun)
    → Distinct (rows ++ r ∷ [])
    → create_run answers r rows ≡ some after
    → (count_runs r.schedule_id after ≤ 20)
      × ((20 ≤ count_runs r.schedule_id rows) ⊎ (after ≡ rows ++ r ∷ []))
      × ((overtaken r rows ≡ true) ⊎ ((older : List ScheduleRun) × (after ≡ older ++ r ∷ [])))
      × (keep_if (λ q. not (of_schedule r.schedule_id q)) after
          ≡ keep_if (λ q. not (of_schedule r.schedule_id q)) rows)
unfolding create_run
create_run-kept answers r rows after d h =
    let all = rows ++ r ∷ [] in
    let e : prune r.schedule_id 20 all ≡ after = ground (arith, h) in
    (
      omega (arith, count_runs-prune-le r.schedule_id 20 all d, ap (count_runs r.schedule_id) e),
      room r rows after e,
      last r rows after e,
      others r rows after e,
    )
