-- ===== src/Tools/Truncate/Bounds.antt =====
-- How long a truncated output is, and where it is cut.
use workhorse_agent.Prelude.{
  ℕ, zero, suc, ◌+◌, ◌-◌, ◌^◌, ◌≤◌, ◌<◌, ◌≡◌, ◌⊎◌, inl, inr, refl, Bool, true, false, ◌++◌, Text,
  codes, leb, length, length-append, take, if◌then◌else◌, arith, [], ◌∷◌, List, Bool-cases,
}
use workhorse_agent.Tools.Truncate.{walk_back, marker, cut_at, fit, truncate_output}

length-take-le {ℓ} : {A : Type ℓ} (n : ℕ) (xs : List A) → length (take n xs) ≤ n
length-take-le zero xs = omega arith
length-take-le (suc n) [] = omega arith
length-take-le (suc n) (x ∷ xs) = omega (arith, length-take-le n xs)

walk_back-le :
    (ends_clean : Text → Bool) (decimal : ℕ → Text) (n : ℕ) (s : Text)
    → walk_back ends_clean decimal n s ≤ n
unfolding walk_back
walk_back-le clean decimal zero s = omega arith
walk_back-le clean decimal (suc n) s = ground (arith, walk_back-le clean decimal n s)

walk_back_clean :
    (ends_clean : Text → Bool) (decimal : ℕ → Text) (n : ℕ) (s : Text)
    → (walk_back ends_clean decimal n s ≡ 0)
      ⊎ (ends_clean (take (walk_back ends_clean decimal n s) s) ≡ true)
unfolding walk_back
walk_back_clean clean decimal zero s = inl refl
walk_back_clean clean decimal (suc n) s = elim (Bool-cases (clean (take (suc n) s))) [
  | inl e ↦ ground (arith, e)
  | inr e ↦ ground (arith, e, walk_back_clean clean decimal n s)
]

length-codes :
    (length (codes "\n[truncated: kept ") ≡ 18)
    × (length (codes " bytes of ") ≡ 10)
    × (length (codes "]") ≡ 1)
unfolding codes
length-codes = (refl, refl, refl)

length-append5 :
    (a b c d e : Text)
    → length (a ++ b ++ c ++ d ++ e) ≡ length a + length b + length c + length d + length e
length-append5 a b c d e = omega (
  arith,
  length-append (a ++ b ++ c ++ d) e,
  length-append (a ++ b ++ c) d,
  length-append (a ++ b) c,
  length-append a b,
)

length-marker-le :
    (ends_clean : Text → Bool) (decimal : ℕ → Text) (kept of : ℕ)
    → length (decimal kept) ≤ 20
    → length (decimal of) ≤ 20
    → length (marker ends_clean decimal kept of) ≤ 80
unfolding marker
length-marker-le clean decimal kept of h k =
    let split =
      length-append5 (codes "\n[truncated: kept ") (decimal kept) (codes " bytes of ") (decimal of)
        (codes "]") in
    omega (arith, h, k, length-codes.0, length-codes.1, length-codes.2, split)

cut_at-fits :
    (ends_clean : Text → Bool) (decimal : ℕ → Text) (max kept : ℕ) (s : Text)
    → length (decimal kept) ≤ 20
    → length (decimal (length s)) ≤ 20
    → kept + 80 ≤ max
    → length (cut_at ends_clean decimal kept s) ≤ max
unfolding cut_at
cut_at-fits clean decimal max kept s h k le = omega (
  arith,
  le,
  length-append (take kept s) (marker clean decimal kept (length s)),
  length-take-le kept s,
  length-marker-le clean decimal kept (length s) h k,
)

-- With a cap of at least 80 bytes no output is longer than its cap, provided that a number below
-- 2 ^ 63 prints in at most 20 digits and that the output's length is such a number.
pub truncate_output-bounded :
    (ends_clean : Text → Bool) (decimal : ℕ → Text) (max : ℕ) (s : Text)
    → ((n : ℕ) → n < 2 ^ 63 → length (decimal n) ≤ 20)
    → length s < 2 ^ 63
    → 80 ≤ max
    → max < 2 ^ 63
    → length (truncate_output ends_clean decimal max s).0 ≤ max
unfolding truncate_output fit
truncate_output-bounded clean decimal max s digits small room small' =
    let le = walk_back-le clean decimal (max - 80) s in
    let fits =
      cut_at-fits clean decimal max (walk_back clean decimal (max - 80) s) s
        (digits (walk_back clean decimal (max - 80) s) (omega (arith, le)))
        (digits (length s) small) (omega (arith, le)) in
    ground (arith, fits)

-- What a cut text is.
abbrev pub Marked : (Text → Bool) → (ℕ → Text) → ℕ → Text → Text → Type 0
Marked ends_clean decimal max s out =
    (kept : ℕ) × (out ≡ take kept s ++ marker ends_clean decimal kept (length s))
    × (kept ≤ max)
    × ((kept ≡ 0) ⊎ (ends_clean (take kept s) ≡ true))

walk_back-Marked :
    (ends_clean : Text → Bool) (decimal : ℕ → Text) (max n : ℕ) (s : Text)
    → n ≤ max
    → Marked ends_clean decimal max s
        (cut_at ends_clean decimal (walk_back ends_clean decimal n s) s)
unfolding cut_at
walk_back-Marked clean decimal max n s h = (
  walk_back clean decimal n s,
  refl,
  omega (arith, h, walk_back-le clean decimal n s),
  walk_back_clean clean decimal n s,
)

fit-Marked :
    (ends_clean : Text → Bool) (decimal : ℕ → Text) (max n : ℕ) (s : Text)
    → n ≤ max
    → Marked ends_clean decimal max s
        (fit ends_clean decimal max (walk_back ends_clean decimal n s) s)
unfolding fit
fit-Marked clean decimal max n s h =
    let first = walk_back clean decimal n s in
    let again = first - (length (cut_at clean decimal first s) - max) in
    elim (leb (length (cut_at clean decimal first s)) max)
      as (λ fits. Marked clean decimal max s (
        if fits
        then cut_at clean decimal first s
        else cut_at clean decimal (walk_back clean decimal again s) s)) [
          | true ↦ walk_back-Marked clean decimal max n s h
          | false ↦
              walk_back-Marked clean decimal max again s
                (omega (arith, h, walk_back-le clean decimal n s))
        ]

truncate_output-fit :
    (ends_clean : Text → Bool) (decimal : ℕ → Text) (max : ℕ) (s : Text)
    → 1 ≤ max
    → max < length s
    → truncate_output ends_clean decimal max s
      ≡ (fit ends_clean decimal max (walk_back ends_clean decimal (max - 80) s) s, true)
unfolding truncate_output
truncate_output-fit clean decimal max s h k = ground arith

-- An output above its cap keeps a prefix that does not end inside a rune, followed by the marker
-- with the prefix's length and the whole length.
pub truncate_output-marked :
    (ends_clean : Text → Bool) (decimal : ℕ → Text) (max : ℕ) (s : Text)
    → 1 ≤ max
    → max < length s
    → ((truncate_output ends_clean decimal max s).1 ≡ true)
      × ((kept : ℕ) × ((truncate_output ends_clean decimal max s).0
            ≡ take kept s ++ marker ends_clean decimal kept (length s))
          × (kept ≤ max)
          × ((kept ≡ 0) ⊎ (ends_clean (take kept s) ≡ true)))
truncate_output-marked clean decimal max s h k =
    rw (truncate_output-fit clean decimal max s h k)
      (refl, fit-Marked clean decimal max (max - 80) s (omega arith))
