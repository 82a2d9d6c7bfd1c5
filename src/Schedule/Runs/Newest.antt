-- ===== src/Schedule/Runs/Newest.antt =====
-- The newest runs of a schedule, and what the deletion of the others keeps.
use workhorse_agent.Prelude.{
  ℕ, zero, suc, ◌≤◌, ◌+◌, ◌≡◌, refl, sym, ap, Bool-cases, inl, inr, ◌∙◌, Bool, true, false, ◌&&◌,
  ◌||◌, not, List, [], ◌∷◌, ◌++◌, Text, keep_if, arith, any, any-append, any-keep_if, All, length,
  take, ◌==◌,
}
use mathlib.Core.List.{append_assoc}
use workhorse_agent.Schedule.Runs.{
  ScheduleRun, of_schedule, count_runs, insert_by_start, newest_first, newest, has_run, prune,
}

-- No id is given twice.
abbrev pub Distinct : List ScheduleRun → Type 0
Distinct [] = Unit
Distinct (r ∷ rs) = (has_run r.id rs ≡ false) × Distinct rs

any-insert_by_start :
    (f : ScheduleRun → Bool) (r : ScheduleRun) (qs : List ScheduleRun)
    → any f (insert_by_start r qs) ≡ (f r || any f qs)
unfolding insert_by_start any
any-insert_by_start f r [] = refl
any-insert_by_start f r (q ∷ qs) = ground (arith, any-insert_by_start f r qs)

any-newest_first :
    (f : ScheduleRun → Bool) (rs : List ScheduleRun) → any f (newest_first rs) ≡ any f rs
unfolding newest_first any
any-newest_first f [] = refl
any-newest_first f (r ∷ rs) =
    ground (arith, any-insert_by_start f r (newest_first rs), any-newest_first f rs)

length-insert_by_start :
    (r : ScheduleRun) (qs : List ScheduleRun) → length (insert_by_start r qs) ≡ suc (length qs)
unfolding insert_by_start
length-insert_by_start r [] = refl
length-insert_by_start r (q ∷ qs) = ground (arith, length-insert_by_start r qs)

pub length-newest_first : (rs : List ScheduleRun) → length (newest_first rs) ≡ length rs
unfolding newest_first
length-newest_first [] = refl
length-newest_first (r ∷ rs) =
    omega (arith, length-insert_by_start r (newest_first rs), length-newest_first rs)

length-take-le : (n : ℕ) (rs : List ScheduleRun) → length (take n rs) ≤ n
length-take-le zero rs = omega arith
length-take-le (suc n) [] = omega arith
length-take-le (suc n) (r ∷ rs) = omega (arith, length-take-le n rs)

pub take_all : (n : ℕ) (rs : List ScheduleRun) → length rs ≤ n → take n rs ≡ rs
take_all zero [] h = refl
take_all zero (r ∷ rs) h = absurd (omega (arith, h))
take_all (suc n) [] h = refl
take_all (suc n) (r ∷ rs) h = ap (◌∷◌ r) (take_all n rs (omega (arith, h)))

no_match :
    (k : ℕ) (rs : List ScheduleRun)
    → has_run k rs ≡ false
    → length (keep_if (λ r. k == r.id) rs) ≡ 0
unfolding has_run any keep_if
no_match k [] h = refl
no_match k (r ∷ rs) h = ground (arith, h, no_match k rs)

one_match : (k : ℕ) (rs : List ScheduleRun) → Distinct rs → length (keep_if (λ r. k == r.id) rs) ≤ 1
unfolding keep_if
one_match k [] d = omega arith
one_match k (r ∷ rs) d = elim (Bool-cases (k == r.id)) [
  | inl e ↦ ground (arith, e, d.0, no_match r.id rs d.0, no_match k rs)
  | inr n ↦ ground (arith, n, one_match k rs d.1)
]

either_kept :
    (p q : ScheduleRun → Bool) (rs : List ScheduleRun)
    → length (keep_if (λ r. p r || q r) rs) ≤ length (keep_if p rs) + length (keep_if q rs)
unfolding keep_if
either_kept p q [] = omega arith
either_kept p q (r ∷ rs) = ground (arith, either_kept p q rs)

none_kept : (rs : List ScheduleRun) → length (keep_if (λ r. false) rs) ≡ 0
unfolding keep_if
none_kept [] = refl
none_kept (r ∷ rs) = none_kept rs

-- Each of the ids stands in one row at most.
named_kept :
    (ks rs : List ScheduleRun)
    → Distinct rs
    → length (keep_if (λ r. has_run r.id ks) rs) ≤ length ks
unfolding has_run any
named_kept [] rs d = omega (arith, none_kept rs)
named_kept (k ∷ ks) rs d = omega (
  arith,
  either_kept (λ r. k.id == r.id) (λ r. has_run r.id ks) rs,
  one_match k.id rs d,
  named_kept ks rs d,
)

module _ (p q : ScheduleRun → Bool) where
  both_kept :
      (rs : List ScheduleRun)
      → length (keep_if p (keep_if (λ r. not (p r) || q r) rs)) ≤ length (keep_if q rs)
  unfolding keep_if
  both_kept [] = omega arith
  both_kept (r ∷ rs) = ground (arith, both_kept rs)

  pub others_kept :
      (rs : List ScheduleRun)
      → keep_if (λ r. not (p r)) (keep_if (λ r. not (p r) || q r) rs) ≡ keep_if (λ r. not (p r)) rs
  unfolding keep_if
  others_kept [] = refl
  others_kept (r ∷ rs) = ground (arith, others_kept rs)

pub count_runs-prune-le :
    (id : Text) (keep : ℕ) (rows : List ScheduleRun)
    → Distinct rows
    → count_runs id (prune id keep rows) ≤ keep
unfolding count_runs prune newest
count_runs-prune-le id keep rows d =
    let kept = newest id keep rows in
    omega (
      arith,
      both_kept (of_schedule id) (λ r. has_run r.id kept) rows,
      named_kept kept rows d,
      length-take-le keep (newest_first (keep_if (of_schedule id) rows)),
    )

pub kept_whole :
    (t : ScheduleRun → Bool) (rs : List ScheduleRun) → All (λ r. t r ≡ true) rs → keep_if t rs ≡ rs
unfolding keep_if
kept_whole t [] h = refl
kept_whole t (r ∷ rs) h = ground (arith, h.0, kept_whole t rs h.1)

-- The rows of a list that stands at the end of `all`.
pub in_place :
    (p : ScheduleRun → Bool) (front rs all : List ScheduleRun)
    → all ≡ front ++ rs
    → All (λ r. (not (p r) || any (λ x. p x && x.id == r.id) all) ≡ true) rs
unfolding any
in_place p front [] all e = tt
in_place p front (r ∷ rs) all e = (
  ground (
    arith,
    ap (any (λ x. p x && x.id == r.id)) e,
    any-append (λ x. p x && x.id == r.id) front (r ∷ rs),
  ),
  in_place p (front ++ r ∷ []) rs all (e ∙ sym (append_assoc front (r ∷ []) rs)),
)

pub rows_named :
    (id : Text) (rows rs : List ScheduleRun)
    → All
        (λ r. (not (of_schedule id r) || any (λ x. of_schedule id x && x.id == r.id) rows) ≡ true)
        rs
    → All
        (λ r.
          (not (of_schedule id r) || has_run r.id (newest_first (keep_if (of_schedule id) rows)))
          ≡ true)
        rs
unfolding has_run
rows_named id rows [] h = tt
rows_named id rows (r ∷ rs) h = (
  ground (
    arith,
    h.0,
    any-newest_first (λ x. x.id == r.id) (keep_if (of_schedule id) rows),
    any-keep_if (λ x. x.id == r.id) (of_schedule id) rows,
  ),
  rows_named id rows rs h.1,
)
