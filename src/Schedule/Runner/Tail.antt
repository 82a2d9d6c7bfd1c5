-- ===== src/Schedule/Runner/Tail.antt =====
-- The tail of a long output.
use workhorse_agent.Prelude.{
  ℕ, zero, suc, ◌-◌, ◌≤◌, ◌≡◌, ◌⊎◌, inl, inr, refl, sym, Bool-cases, ap, ◌∙◌, Bool, true, false,
  not, List, [], ◌∷◌, ◌++◌, Text, length, drop, if◌then◌else◌, leb, ◌||◌, ◌==◌, arith,
}
use mathlib.Core.List.{append_assoc}
use workhorse_agent.Schedule.Runner.{is_continuation, skip_continuation, tail_text}

length-drop-le {ℓ} : {A : Type ℓ} (n : ℕ) (xs : List A) → length (drop n xs) ≤ length xs - n
length-drop-le zero xs = omega arith
length-drop-le (suc n) [] = omega arith
length-drop-le (suc n) (x ∷ xs) = omega (arith, length-drop-le n xs)

length-skip_continuation-le : (s : Text) → length (skip_continuation s) ≤ length s
unfolding skip_continuation
length-skip_continuation-le [] = omega arith
length-skip_continuation-le (b ∷ s) = ground (arith, length-skip_continuation-le s)

abbrev pub starts_clean : Text → Bool
starts_clean [] = true
starts_clean (b ∷ s) = not (is_continuation b)

skip_continuation_clean : (s : Text) → starts_clean (skip_continuation s) ≡ true
unfolding skip_continuation
skip_continuation_clean [] = refl
skip_continuation_clean (b ∷ s) = ground (arith, skip_continuation_clean s)

abbrev pub Suffix : Text → Text → Type 0
Suffix t s = (before : Text) × (s ≡ before ++ t)

skip_continuation-Suffix : (s : Text) → Suffix (skip_continuation s) s
unfolding skip_continuation
skip_continuation-Suffix [] = ([], refl)
skip_continuation-Suffix (b ∷ s) =
    elim (is_continuation b) as (λ c. Suffix (if c then skip_continuation s else b ∷ s) (b ∷ s)) [
      | true ↦ let (w, e) = skip_continuation-Suffix s in (b ∷ w, ap (λ l. b ∷ l) e)
      | false ↦ ([], refl)
    ]

drop-Suffix : (n : ℕ) (s : Text) → Suffix (drop n s) s
drop-Suffix zero s = ([], refl)
drop-Suffix (suc n) [] = ([], refl)
drop-Suffix (suc n) (b ∷ s) = let (w, e) = drop-Suffix n s in (b ∷ w, ap (λ l. b ∷ l) e)

-- The tail of an output above the cap is a suffix of it, is no longer than the cap and does not
-- start inside a rune; any other output is kept whole.
pub tail_text-bounded :
    (max : ℕ) (s : Text)
    → 1 ≤ max
    → (length (tail_text max s) ≤ max)
      × Suffix (tail_text max s) s
      × ((tail_text max s ≡ s) ⊎ (starts_clean (tail_text max s) ≡ true))
unfolding tail_text
tail_text-bounded max s h =
    let cut = drop (length s - max) s in
    elim (Bool-cases ((max == 0) || leb (length s) max)) [
      | inl e ↦ rw e (ground (arith, e, h), ([], refl), inl refl)
      | inr e ↦
          let (w, p) = skip_continuation-Suffix cut in
          let (v, q) = drop-Suffix (length s - max) s in
          rw e (
            omega (arith, length-skip_continuation-le cut, length-drop-le (length s - max) s),
            (v ++ w, q ∙ ap (λ l. v ++ l) p ∙ sym (append_assoc v w (skip_continuation cut))),
            inr (skip_continuation_clean cut),
          )
    ]
