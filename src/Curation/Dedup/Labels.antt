-- ===== src/Curation/Dedup/Labels.antt =====
-- Chains of pairs of indices, and labels that are equal just along a chain.
use workhorse_agent.Prelude.{
  ◌≡◌, refl, sym, ap, ◌∙◌, ℕ, Bool, true, ◌&&◌, ◌||◌, ◌==◌, ==_iff, List, [], ◌∷◌, ◌++◌, any,
  any-append, arith, Bool-cases, inl, inr,
}
use workhorse_agent.Curation.Dedup.{link}
use workhorse_agent.Curation.Dedup.Roots.{merged}

unfoldable pub has_pair : List (ℕ × ℕ) → ℕ → ℕ → Bool
has_pair es a b = any (λ e. e.0 == a && e.1 == b) es

-- The equivalence that the pairs generate.
pub data Linked (es : List (ℕ × ℕ)) : ℕ → ℕ → Type 0 where
  edge : {x y : ℕ} → has_pair es x y ≡ true → Linked es x y
  same : {x : ℕ} → Linked es x x
  flip : {x y : ℕ} → Linked es x y → Linked es y x
  chain : {x y z : ℕ} → Linked es x y → Linked es y z → Linked es x z

has_pair-append :
    (es fs : List (ℕ × ℕ)) (x y : ℕ)
    → has_pair (es ++ fs) x y ≡ (has_pair es x y || has_pair fs x y)
unfolding has_pair
has_pair-append es fs x y = any-append (λ e. e.0 == x && e.1 == y) es fs

Linked-append : (es fs : List (ℕ × ℕ)) {x y : ℕ} → Linked es x y → Linked (es ++ fs) x y
Linked-append es fs (edge {x} {y} h) = edge (ground (arith, h, has_pair-append es fs x y))
Linked-append es fs same = same
Linked-append es fs (flip h) = flip (Linked-append es fs h)
Linked-append es fs (chain h g) = chain (Linked-append es fs h) (Linked-append es fs g)

-- A labelling that tells just the linked indices the same.
pub record Labels (es : List (ℕ × ℕ)) (label : ℕ → ℕ) : Type 0 where
  pub sound : (y z : ℕ) → label y ≡ label z → Linked es y z
  pub complete : {y z : ℕ} → Linked es y z → label y ≡ label z

pub last_pair : (es : List (ℕ × ℕ)) (a b : ℕ) → has_pair (es ++ (a, b) ∷ []) a b ≡ true
unfolding has_pair any
last_pair es a b = ground (arith, has_pair-append es ((a, b) ∷ []) a b, ==_iff a a, ==_iff b b)

only_pair : (a b y z : ℕ) → has_pair ((a, b) ∷ []) y z ≡ true → (a ≡ y) × (b ≡ z)
unfolding has_pair any
only_pair a b y z h = (ground (arith, h), ground (arith, h))

-- A labelling complete for the pairs before and for one more.
extended :
    (es : List (ℕ × ℕ)) (a b : ℕ) (label : ℕ → ℕ) {y z : ℕ}
    → ((u v : ℕ) → Linked es u v → label u ≡ label v)
    → label a ≡ label b
    → Linked (es ++ (a, b) ∷ []) y z
    → label y ≡ label z
extended es a b label c h (edge {x} {y} g) = elim (Bool-cases (has_pair es x y)) [
  | inl e ↦ c x y (edge e)
  | inr e ↦
      let (ax, by) =
        only_pair a b x y (ground (arith, g, e, has_pair-append es ((a, b) ∷ []) x y)) in
      sym (ap label ax) ∙ h ∙ ap label by
]
extended es a b label c h same = refl
extended es a b label c h (flip g) = sym (extended es a b label c h g)
extended es a b label c h (chain g k) = extended es a b label c h g ∙ extended es a b label c h k

-- The pair joins what had its two labels already.
pub same-Labels :
    (es : List (ℕ × ℕ)) (a b : ℕ) (label : ℕ → ℕ)
    → label a ≡ label b
    → Labels es label
    → Labels (es ++ (a, b) ∷ []) label
same-Labels es a b label h l = record {
  sound = λ y z e. Linked-append es ((a, b) ∷ []) (l.sound y z e);
  complete = extended es a b label (λ u v g. l.complete g) h;
}

-- Whichever of the two labels of the pair replaces the other.
merge_sound :
    (es : List (ℕ × ℕ)) (c d : ℕ) (label : ℕ → ℕ) (more : List (ℕ × ℕ))
    → Labels es label
    → Linked (es ++ more) c d
    → (y z : ℕ) → merged (label c) (label d) (label y) ≡ merged (label c) (label d) (label z)
    → Linked (es ++ more) y z
merge_sound es c d label more l link y z h =
    let old = λ (u v : ℕ). λ (e : label u ≡ label v). Linked-append es more (l.sound u v e) in
    elim (Bool-cases (label y == label d)) [
      | inl ey ↦ elim (Bool-cases (label z == label d)) [
        | inl ez ↦ old y z (ground (arith, ey, ez))
        | inr ez ↦
            chain (old y d (ground (arith, ey)))
              (chain (flip link) (old c z (ground (arith, ey, ez, h))))
      ]
      | inr ey ↦ elim (Bool-cases (label z == label d)) [
        | inl ez ↦
            chain (old y c (ground (arith, ey, ez, h))) (chain link (old d z (ground (arith, ez))))
        | inr ez ↦ old y z (ground (arith, ey, ez, h))
      ]
    ]

pub merge-Labels :
    (es : List (ℕ × ℕ)) (a b c d : ℕ) (label : ℕ → ℕ)
    → Labels es label
    → Linked (es ++ (a, b) ∷ []) c d
    → merged (label c) (label d) (label a) ≡ merged (label c) (label d) (label b)
    → Labels (es ++ (a, b) ∷ []) (λ y. merged (label c) (label d) (label y))
merge-Labels es a b c d label l link e = record {
  sound = merge_sound es c d label ((a, b) ∷ []) l link;
  complete =
      extended es a b (λ y. merged (label c) (label d) (label y))
        (λ u v g. ap (merged (label c) (label d)) (l.complete g)) e;
}
