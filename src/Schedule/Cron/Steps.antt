-- ===== src/Schedule/Cron/Steps.antt =====
-- The values of one part of a field.
use workhorse_agent.Prelude.{
  ℕ, zero, suc, ◌+◌, ◌*◌, ◌^◌, ◌≤◌, ◌<◌, ◌≡◌, ◌↔◌, Bool, true, false, arith, any, leb, refl,
  Bool-cases, [], ◌∷◌, inl, inr, if◌then◌else◌, ◌==◌, ◌||◌, ap, ◌∙◌,
}
use native.Mathlib.Nat.{suc-mul}
use workhorse_agent.Schedule.Cron.{step_set, member, step_fuel}

-- No wrap-around while a step stays below 2 ^ 62.
step_set-suc :
    (f i hi step : ℕ)
    → hi < 2 ^ 62
    → step < 2 ^ 62
    → i < 2 ^ 63
    → step_set (suc f) i hi step ≡ (if leb i hi then i ∷ step_set f (i + step) hi step else [])
unfolding step_set
step_set-suc f i hi step hh hs h = ground arith

abbrev later : ℕ → ℕ → ℕ → ℕ → ℕ → Bool
later x f i hi step = member x (step_set f (i + step) hi step)

member-step_set :
    (f i hi step x : ℕ)
    → hi < 2 ^ 62
    → step < 2 ^ 62
    → i < 2 ^ 63
    → member x (step_set (suc f) i hi step)
      ≡ (if leb i hi then (i == x) || later x f i hi step else false)
unfolding member any
member-step_set f i hi step x hh hs h =
    ap (member x) (step_set-suc f i hi step hh hs h)
    ∙ (elim (Bool-cases (leb i hi)) [ inl e ↦ rw e refl | inr e ↦ rw e refl ])

suc_mul : (k step : ℕ) → suc k * step ≡ step + k * step
suc_mul k step = omega (arith, suc-mul k step)

one_later :
    (x i step hi : ℕ)
    → (k : ℕ) × (x ≡ (i + step) + k * step) × (x ≤ hi)
    → (k : ℕ) × (x ≡ i + k * step) × (x ≤ hi)
one_later x i step hi (k, a, b) = (suc k, omega (arith, a, suc_mul k step), b)

step_set_sound :
    (f i hi step x : ℕ)
    → hi < 2 ^ 62
    → step < 2 ^ 62
    → i < 2 ^ 63
    → member x (step_set f i hi step) ≡ true
    → (k : ℕ) × (x ≡ i + k * step) × (x ≤ hi)
unfolding step_set member any
step_set_sound zero i hi step x hh hs hi' m = ground arith
step_set_sound (suc f) i hi step x hh hs hi' m = elim (Bool-cases (leb i hi)) [
  | inr e ↦ ground (arith, e, member-step_set f i hi step x hh hs hi')
  | inl e ↦ elim (Bool-cases (i == x)) [
    | inl d ↦ (0, ground (arith, d), ground (arith, d, e))
    | inr d ↦ one_later x i step hi (
        step_set_sound f (i + step) hi step x hh hs (ground (arith, e))
          (ground (arith, d, e, m, member-step_set f i hi step x hh hs hi')))
  ]
]

step_set_complete :
    (f i hi step k x : ℕ)
    → hi < 2 ^ 62
    → step < 2 ^ 62
    → 1 ≤ step
    → i < 2 ^ 63
    → hi < i + f
    → x ≡ i + k * step
    → x ≤ hi
    → member x (step_set f i hi step) ≡ true
step_set_complete zero i hi step k x hh hs h1 h2 hf hx hk = ground (arith, hx, hf, hk)
step_set_complete (suc f) i hi step zero x hh hs h1 h2 hf hx hk =
    ground (arith, member-step_set f i hi step x hh hs h2)
step_set_complete (suc f) i hi step (suc k) x hh hs h1 h2 hf hx hk =
    let ih : i + step < 2 ^ 63 → later x f i hi step ≡ true = λ small.
      step_set_complete f (i + step) hi step k x hh hs h1 small (omega arith)
        (omega (arith, suc_mul k step)) hk in
    ground (arith, member-step_set f i hi step x hh hs h2, ih, suc_mul k step)

-- A part `lo-hi/step` of a field stands for exactly the values lo, lo + step, lo + 2 * step, …
-- that are at most hi, for every step below 2 ^ 62.
pub step_set_iff :
    (lo hi step x : ℕ)
    → hi < 128
    → 1 ≤ step
    → step < 2 ^ 62
    → lo ≤ hi
    → (member x (step_set step_fuel lo hi step) ≡ true) ↔ ((k : ℕ) × (x ≡ lo + k * step) × (x ≤ hi))
step_set_iff lo hi step x h1 h2 h3 h4 = (
  step_set_sound step_fuel lo hi step x (omega arith) h3 (omega arith),
  λ m.
      step_set_complete step_fuel lo hi step m.0 x (omega arith) h3 h2 (omega arith) (omega arith)
        m.1 m.2,
)
