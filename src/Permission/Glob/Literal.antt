-- ===== src/Permission/Glob/Literal.antt =====
-- A rule pattern with no metacharacter is an exact match.
use workhorse_agent.Prelude.{
  ◌≡◌, refl, Bool, true, false, ◌&&◌, List, [], ◌∷◌, Text, text_eq, ◌==◌, All, arith, Bool-cases,
  inl, inr, ◌∙◌,
}
use workhorse_agent.Permission.Segment.Plain.{IsPlain, segment_match-plain}
use workhorse_agent.Permission.Glob.{split, double_star, match_segs, one_segment, match_glob}

abbrev segs_eq : List Text → List Text → Bool
segs_eq [] [] = true
segs_eq [] (y ∷ ys) = false
segs_eq (x ∷ xs) [] = false
segs_eq (x ∷ xs) (y ∷ ys) = text_eq x y && segs_eq xs ys

split-nonempty : (s : Text) → (x : Text) × (xs : List Text) × (split s ≡ x ∷ xs)
unfolding split
split-nonempty [] = ([], [], refl)
split-nonempty (c ∷ s) =
    let (x, xs, e) = split-nonempty s in
    elim (Bool-cases (c == b'/')) [
      | inl h ↦ ([], x ∷ xs, rw (h, e))
      | inr h ↦ (c ∷ x, xs, rw (h, e))
    ]

-- Splitting loses nothing.
segs_eq-split : (a b : Text) → segs_eq (split a) (split b) ≡ text_eq a b
unfolding split text_eq
segs_eq-split [] [] = refl
segs_eq-split [] (d ∷ b) = ground (arith, split-nonempty b)
segs_eq-split (c ∷ a) [] = ground (arith, split-nonempty a)
segs_eq-split (c ∷ a) (d ∷ b) =
    ground (arith, split-nonempty a, split-nonempty b, segs_eq-split a b)

split-IsPlain : (s : Text) → IsPlain s → All IsPlain (split s)
unfolding split
split-IsPlain [] h = (tt, tt)
split-IsPlain (c ∷ s) h =
    let (x, xs, e) = split-nonempty s in
    let rest = split-IsPlain s h.1 in
    elim (Bool-cases (c == b'/')) [
      | inl p ↦ rw p (tt, rest)
      | inr p ↦ rw (p, e) ((h.0, (rw e at rest).0), (rw e at rest).1)
    ]

plain-ne-double_star : (p : Text) → IsPlain p → text_eq p double_star ≡ false
unfolding double_star text_eq
plain-ne-double_star [] h = refl
plain-ne-double_star (c ∷ s) h = ground (arith, h.0)

match_segs-plain : (pat tgt : List Text) → All IsPlain pat → match_segs pat tgt ≡ segs_eq pat tgt
unfolding match_segs one_segment
match_segs-plain [] [] h = refl
match_segs-plain [] (t ∷ ts) h = refl
match_segs-plain (p ∷ pat) [] h = rw (plain-ne-double_star p h.0)
match_segs-plain (p ∷ pat) (t ∷ ts) h =
    rw (plain-ne-double_star p h.0)
      (rw (segment_match-plain p t h.0, one_segment) (rw (match_segs-plain pat ts h.1)))

-- A pattern with no `*`, `?`, `[` or backslash matches exactly the target equal to it.
pub match_glob-plain :
    (pattern target : Text) → IsPlain pattern → match_glob pattern target ≡ text_eq pattern target
unfolding match_glob
match_glob-plain pattern target h =
    match_segs-plain (split pattern) (split target) (split-IsPlain pattern h)
    ∙ segs_eq-split pattern target
