-- ===== src/Schedule/Cron/Next.antt =====
-- The search for the next match, minute by minute.
use workhorse_agent.Prelude.{
  ℕ, zero, suc, ◌+◌, ◌*◌, ◌≤◌, ◌<◌, ◌≡◌, true, false, arith, ltb, Bool-cases, Option, none, some,
  inl, inr, Text, ap, sym, ◌∙◌, Option-cases,
}
use native.Mathlib.Nat.{mod-lt}
use workhorse_agent.Schedule.Cron.{
  LocalTime, matches, search_from, next_match, minute_ns, truncate, parse_expr,
}

-- Where the search stopped.
unfoldable pub stop : ℕ → Option ℕ → ℕ
stop limit none = limit
stop limit (some u) = u

module _ (local : ℕ → LocalTime) (expr : Text) where
  search_from-found :
      (f t limit u : ℕ)
      → search_from local f expr t limit ≡ some u
      → (k : ℕ) × (u ≡ t + k * minute_ns) × (u < limit) × (matches expr (local u) ≡ true)
  unfolding search_from
  search_from-found zero t limit u h = cc
  search_from-found (suc f) t limit u h = elim (Bool-cases (ltb t limit)) [
    | inr e ↦ ground (arith, h, e)
    | inl e ↦ elim (Bool-cases (matches expr (local t))) [
      | inl m ↦
          let here : t ≡ u = ground (arith, h, e, m) in
          (
            0,
            ground (arith, here),
            ground (arith, here, e),
            ap (λ v. matches expr (local v)) (sym here) ∙ m,
          )
      | inr m ↦
          let (k, a, b, c) =
            search_from-found f (t + minute_ns) limit u (ground (arith, h, e, m)) in
          (suc k, omega (arith, a), b, c)
    ]
  ]

  search_from-skipped :
      (f t limit j : ℕ)
      → limit ≤ t + f * minute_ns
      → t + j * minute_ns < stop limit (search_from local f expr t limit)
      → matches expr (local (t + j * minute_ns)) ≡ false
  unfolding search_from stop
  search_from-skipped zero t limit j hl hj = ground arith
  search_from-skipped (suc f) t limit zero hl hj = ground arith
  search_from-skipped (suc f) t limit (suc j) hl hj = elim (Bool-cases (ltb t limit)) [
    | inr e ↦ ground (arith, hj, e)
    | inl e ↦ elim (Bool-cases (matches expr (local t))) [
      | inl m ↦ ground (arith, hj, e, m)
      | inr m ↦
          ap (λ v. matches expr (local v)) (omega arith)
          ∙ search_from-skipped f (t + minute_ns) limit j (omega arith) (ground (arith, hj, e, m))
    ]
  ]

  next_match-search_from :
      (from : ℕ) (r : Option ℕ)
      → next_match local expr from ≡ some r
      → search_from local 10_082 expr (truncate from) (from + 10_080 * minute_ns) ≡ r
  unfolding next_match
  next_match-search_from from r h = elim (Option-cases (parse_expr expr)) [
    | inl e ↦ cc
    | inr (c, e) ↦ cc
  ]

  -- What NextMatch returns is a whole number of minutes after the truncated start and within
  -- seven days of the start, and the expression matches there.
  pub next_match-found :
      (from u : ℕ)
      → next_match local expr from ≡ some (some u)
      → (k : ℕ) × (u ≡ truncate from + k * minute_ns)
        × (u < from + 10_080 * minute_ns)
        × (matches expr (local u) ≡ true)
  unfolding next_match
  next_match-found from u h =
      search_from-found 10_082 (truncate from) (from + 10_080 * minute_ns) u
        (next_match-search_from from (some u) h)

  -- NextMatch passes over no match: at every minute before the one that it returns, and at every
  -- minute of the seven days when it reports that there is none, the expression does not match.
  pub next_match-skipped :
      (from j : ℕ) (r : Option ℕ)
      → next_match local expr from ≡ some r
      → truncate from + j * minute_ns < stop (from + 10_080 * minute_ns) r
      → matches expr (local (truncate from + j * minute_ns)) ≡ false
  unfolding next_match
  next_match-skipped from j r h hj =
      search_from-skipped 10_082 (truncate from) (from + 10_080 * minute_ns) j
        (omega (arith, mod-lt from {m = minute_ns} (omega arith)))
        (omega (arith, hj, ap (stop (from + 10_080 * minute_ns)) (next_match-search_from from r h)))
