-- ===== src/Curation/Dedup/Roots.antt =====
-- Roots of a forest of parents: path halving keeps them, and linking merges two.
use workhorse_agent.Prelude.{
  ◌≡◌, refl, sym, ap, ◌∙◌, ℕ, zero, suc, true, false, ◌==◌, ==_iff, if◌then◌else◌, arith,
  Bool-cases, inl, inr,
}
use mathlib.Core.Path.{subst}
use workhorse_agent.Curation.Dedup.{set, find}

unfoldable pub walk : ℕ → (ℕ → ℕ) → ℕ → ℕ
walk zero p x = x
walk (suc n) p x = walk n p (p x)

-- After so many steps the walk is at a root.
abbrev pub Reaches : ℕ → (ℕ → ℕ) → ℕ → Type 0
Reaches n p x = p (walk n p x) ≡ walk n p x

abbrev pub Flat : ℕ → (ℕ → ℕ) → Type 0
Flat n p = (x : ℕ) → Reaches n p x

pub walk-fixed : (n : ℕ) (p : ℕ → ℕ) (x : ℕ) → p x ≡ x → walk n p x ≡ x
unfolding walk
walk-fixed zero p x h = refl
walk-fixed (suc n) p x h = ap (walk n p) h ∙ walk-fixed n p x h

-- A step more changes nothing.
pub walk-suc : (n : ℕ) (p : ℕ → ℕ) (x : ℕ) → Reaches n p x → walk (suc n) p x ≡ walk n p x
unfolding walk
walk-suc zero p x h = h
walk-suc (suc n) p x h = walk-suc n p (p x) h

pub Reaches-suc : (n : ℕ) (p : ℕ → ℕ) (x : ℕ) → Reaches n p x → Reaches (suc n) p x
Reaches-suc n p x h = ap p (walk-suc n p x h) ∙ h ∙ sym (walk-suc n p x h)

-- The parents after halving at x.
abbrev pub halved : ℕ → (ℕ → ℕ) → ℕ → ℕ
halved x p = set x (p (p x)) p

halved_self : (x : ℕ) (p : ℕ → ℕ) → halved x p x ≡ p (p x)
unfolding set
halved_self x p = ground (arith, ==_iff x x)

halved-ne : (x y : ℕ) (p : ℕ → ℕ) → (y == x) ≡ false → halved x p y ≡ p y
unfolding set
halved-ne x y p h = ground (arith, h)

eq_of : (x y : ℕ) → (y == x) ≡ true → y ≡ x
eq_of x y h = ground (arith, h)

-- The other parents reach the same root in as many steps.
abbrev pub Keeps : ℕ → (ℕ → ℕ) → (ℕ → ℕ) → ℕ → Type 0
Keeps n p q y = Reaches n q y × (walk n q y ≡ walk n p y)

halved_self-Keeps :
    (n x : ℕ) (p : ℕ → ℕ)
    → Reaches n p (p (p x))
    → Keeps n p (halved x p) (p (p x))
    → Keeps (suc (suc n)) p (halved x p) x
unfolding walk
halved_self-Keeps n x p r (k, e) =
    let step = ap (walk n (halved x p)) (halved_self x p) in
    let reaches = subst (λ z. Reaches n (halved x p) z) (sym (halved_self x p)) k in
    let last = walk-suc (suc n) (halved x p) x reaches in
    (Reaches-suc (suc n) (halved x p) x reaches, last ∙ step ∙ e)

halved-fixed : (x y : ℕ) (p : ℕ → ℕ) → p y ≡ y → halved x p y ≡ y
halved-fixed x y p h = elim (Bool-cases (y == x)) [
  | inr e ↦ halved-ne x y p e ∙ h
  | inl e ↦
      let here = eq_of x y e in
      ap (halved x p) here ∙ halved_self x p ∙ ap (λ z. p (p z)) (sym here) ∙ ap p h ∙ h
]

halved_once-Keeps : (x : ℕ) (p : ℕ → ℕ) → Reaches zero p (p x) → Keeps (suc zero) p (halved x p) x
unfolding walk
halved_once-Keeps x p r =
    let step = halved_self x p ∙ r in
    (ap (halved x p) step ∙ halved-fixed x (p x) p r ∙ sym step, step)

pub halved-Keeps : (n x y : ℕ) (p : ℕ → ℕ) → Reaches n p y → Keeps n p (halved x p) y
unfolding walk
halved-Keeps zero x y p h = (halved-fixed x y p h, refl)
halved-Keeps (suc zero) x y p h = elim (Bool-cases (y == x)) [
  | inr e ↦
      subst (λ z. Reaches zero (halved x p) z × (walk zero (halved x p) z ≡ walk zero p (p y)))
        (sym (halved-ne x y p e)) (halved-Keeps zero x (p y) p h)
  | inl e ↦
      subst (λ z. Keeps (suc zero) p (halved x p) z) (sym (eq_of x y e))
        (halved_once-Keeps x p (subst (λ z. Reaches zero p (p z)) (eq_of x y e) h))
]
halved-Keeps (suc (suc n)) x y p h = elim (Bool-cases (y == x)) [
  | inr e ↦
      subst
        (λ z. Reaches (suc n) (halved x p) z × (walk (suc n) (halved x p) z ≡ walk (suc n) p (p y)))
        (sym (halved-ne x y p e)) (halved-Keeps (suc n) x (p y) p h)
  | inl e ↦
      let there = subst (λ z. Reaches n p (p (p z))) (eq_of x y e) h in
      subst (λ z. Keeps (suc (suc n)) p (halved x p) z) (sym (eq_of x y e))
        (halved_self-Keeps n x p there (halved-Keeps n x (p (p x)) p there))
]

-- The two arrays have the same roots.
abbrev pub SameRoots : ℕ → (ℕ → ℕ) → (ℕ → ℕ) → Type 0
SameRoots n p q = Flat n q × ((y : ℕ) → walk n q y ≡ walk n p y)

-- What find is to answer: the root, and an array with the same roots.
abbrev pub Finds : ℕ → (ℕ → ℕ) → ℕ → ℕ × (ℕ → ℕ) → Type 0
Finds n p x r = (r.0 ≡ walk n p x) × SameRoots n p r.1

find-stops : (k : ℕ) (p : ℕ → ℕ) (x : ℕ) → (p x == x) ≡ true → find (suc k) p x ≡ (x, p)
unfolding find
find-stops k p x e = ap (λ b. if b then (x, p) else find k (halved x p) (p (p x))) e

find-goes :
    (k : ℕ) (p : ℕ → ℕ) (x : ℕ)
    → (p x == x) ≡ false
    → find (suc k) p x ≡ find k (halved x p) (p (p x))
unfolding find
find-goes k p x e = ap (λ b. if b then (x, p) else find k (halved x p) (p (p x))) e

walk-twice : (n : ℕ) (p : ℕ → ℕ) (x : ℕ) → Flat n p → walk n p (p (p x)) ≡ walk n p x
unfolding walk
walk-twice n p x f = walk-suc n p (p x) (f (p x)) ∙ walk-suc n p x (f x)

pub find-Finds : (k n : ℕ) (p : ℕ → ℕ) (x : ℕ) → Flat n p → Reaches k p x → Finds n p x (find k p x)
unfolding find walk
find-Finds zero n p x f r = (sym (walk-fixed n p x r), (f, λ y. refl))
find-Finds (suc k) n p x f r = elim (Bool-cases (p x == x)) [
  | inl e ↦
      subst (Finds n p x) (sym (find-stops k p x e))
        (sym (walk-fixed n p x (eq_of x (p x) e)), (f, λ y. refl))
  | inr e ↦
      let keeps = λ (y : ℕ). halved-Keeps n x y p (f y) in
      let next =
        subst (Reaches k (halved x p)) (halved_self x p) (halved-Keeps (suc k) x x p r).0 in
      let (root, (flat, same)) = find-Finds k n (halved x p) (p (p x)) (λ y. (keeps y).0) next in
      subst (Finds n p x) (sym (find-goes k p x e))
        (root ∙ (keeps (p (p x))).1 ∙ walk-twice n p x f, (flat, λ y. same y ∙ (keeps y).1))
]

abbrev pub merged : ℕ → ℕ → ℕ → ℕ
merged r s z = if z == s then r else z

merged_self : (r s : ℕ) → merged r s s ≡ r
merged_self r s = ground (arith, ==_iff s s)

set_self : (r s : ℕ) (p : ℕ → ℕ) → set s r p s ≡ r
unfolding set
set_self r s p = ground (arith, ==_iff s s)

set-ne : (r s y : ℕ) (p : ℕ → ℕ) → (y == s) ≡ false → set s r p y ≡ p y
unfolding set
set-ne r s y p h = ground (arith, h)

-- What a link makes of a root that is reached.
abbrev Links : ℕ → ℕ → ℕ → (ℕ → ℕ) → ℕ → ℕ → Type 0
Links n r s p z root = Reaches n (set s r p) z × (walk n (set s r p) z ≡ merged r s root)

linked_self : (n r s : ℕ) (p : ℕ → ℕ) → p r ≡ r → (r == s) ≡ false → Links (suc n) r s p s s
unfolding walk
linked_self n r s p hr ne =
    let stays = set-ne r s r p ne ∙ hr in
    let last = ap (walk n (set s r p)) (set_self r s p) ∙ walk-fixed n (set s r p) r stays in
    (ap (set s r p) last ∙ stays ∙ sym last, last ∙ sym (merged_self r s))

pub linked-walk :
    (n : ℕ) (r s : ℕ) (p : ℕ → ℕ) (y : ℕ)
    → p r ≡ r
    → p s ≡ s
    → (r == s) ≡ false
    → Reaches n p y
    → Links (suc n) r s p y (walk n p y)
unfolding walk
linked-walk zero r s p y hr hs ne h = elim (Bool-cases (y == s)) [
  | inl e ↦
      subst (λ z. Links (suc zero) r s p z z) (sym (eq_of s y e)) (linked_self zero r s p hr ne)
  | inr e ↦ let stays = set-ne r s y p e ∙ h in (ap (set s r p) stays, stays ∙ ground (arith, e))
]
linked-walk (suc n) r s p y hr hs ne h = elim (Bool-cases (y == s)) [
  | inl e ↦
      subst (λ z. Links (suc (suc n)) r s p z (walk (suc n) p z)) (sym (eq_of s y e))
        (subst (Links (suc (suc n)) r s p s) (sym (walk-fixed (suc n) p s hs))
          (linked_self (suc n) r s p hr ne))
  | inr e ↦
      subst (λ z. Links (suc n) r s p z (walk n p (p y))) (sym (set-ne r s y p e))
        (linked-walk n r s p (p y) hr hs ne h)
]
