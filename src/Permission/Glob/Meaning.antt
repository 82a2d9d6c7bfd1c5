-- ===== src/Permission/Glob/Meaning.antt =====
-- What it means for segments to match, with no search order in it.
use workhorse_agent.Prelude.{
  ◌≡◌, refl, ◌↔◌, Bool, true, false, List, [], ◌∷◌, some, Text, text_eq, Bool-cases, arith, inl,
  inr,
}
use workhorse_agent.Permission.Segment.{segment_match}
use workhorse_agent.Permission.Glob.{double_star, match_segs, any_tail, one_segment}

pub data SegsMatch : List Text → List Text → Type 0 where
  done : SegsMatch [] []
  none_of :
      {p : Text} {pat tgt : List Text}
      → text_eq p double_star ≡ true
      → SegsMatch pat tgt
      → SegsMatch (p ∷ pat) tgt
  take_one :
      {p t : Text} {pat tgt : List Text}
      → text_eq p double_star ≡ true
      → SegsMatch (p ∷ pat) tgt
      → SegsMatch (p ∷ pat) (t ∷ tgt)
  segment :
      {p t : Text} {pat tgt : List Text}
      → text_eq p double_star ≡ false
      → segment_match p t ≡ some true
      → SegsMatch pat tgt
      → SegsMatch (p ∷ pat) (t ∷ tgt)

any_tail_sound :
    (p : Text) (pat tgt : List Text)
    → text_eq p double_star ≡ true
    → ((ts : List Text) → match_segs pat ts ≡ true → SegsMatch pat ts)
    → any_tail (match_segs pat) tgt ≡ true
    → SegsMatch (p ∷ pat) tgt
unfolding any_tail
any_tail_sound p pat [] d ih h = none_of d (ih [] h)
any_tail_sound p pat (t ∷ ts) d ih h = elim (Bool-cases (match_segs pat (t ∷ ts))) [
  | inl e ↦ none_of d (ih (t ∷ ts) e)
  | inr e ↦ take_one d (any_tail_sound p pat ts d ih (ground (arith, e, h)))
]

one_segment_sound :
    (p : Text) (pat tgt : List Text)
    → text_eq p double_star ≡ false
    → ((ts : List Text) → match_segs pat ts ≡ true → SegsMatch pat ts)
    → one_segment p (match_segs pat) tgt ≡ true
    → SegsMatch (p ∷ pat) tgt
unfolding one_segment
one_segment_sound p pat [] d ih h = cc
one_segment_sound p pat (t ∷ ts) d ih h = segment d (ground (arith, h)) (ih ts (ground (arith, h)))

match_segs_sound : (pat tgt : List Text) → match_segs pat tgt ≡ true → SegsMatch pat tgt
unfolding match_segs
match_segs_sound [] [] h = done
match_segs_sound [] (t ∷ ts) h = cc
match_segs_sound (p ∷ pat) tgt h = elim (Bool-cases (text_eq p double_star)) [
  | inl d ↦ any_tail_sound p pat tgt d (match_segs_sound pat) (rw d at h)
  | inr d ↦ one_segment_sound p pat tgt d (match_segs_sound pat) (rw d at h)
]

any_tail-here : (f : List Text → Bool) (ts : List Text) → f ts ≡ true → any_tail f ts ≡ true
unfolding any_tail
any_tail-here f [] h = h
any_tail-here f (t ∷ ts) h = rw (h, any_tail)

any_tail-later :
    (f : List Text → Bool) (t : Text) (ts : List Text)
    → any_tail f ts ≡ true
    → any_tail f (t ∷ ts) ≡ true
unfolding any_tail
any_tail-later f t ts h = elim (Bool-cases (f (t ∷ ts))) [
  | inl e ↦ rw (e, any_tail)
  | inr e ↦ rw (e, any_tail) h
]

match_segs_complete : {pat tgt : List Text} → SegsMatch pat tgt → match_segs pat tgt ≡ true
unfolding match_segs one_segment
match_segs_complete done = refl
match_segs_complete (none_of {pat} {tgt} d m) =
    rw d (any_tail-here (match_segs pat) tgt (match_segs_complete m))
match_segs_complete (take_one {t} {pat} {tgt} d m) =
    rw d (any_tail-later (match_segs pat) t tgt (rw d at (match_segs_complete m)))
match_segs_complete (segment d e m) = rw d (rw (e, one_segment) (match_segs_complete m))

-- The matcher answers true exactly where the segments match: its greedy loop over `**` misses no
-- way to match and finds none that is not there, for every pattern and target.
pub match_segs_iff : (pat tgt : List Text) → (match_segs pat tgt ≡ true) ↔ SegsMatch pat tgt
match_segs_iff pat tgt = (match_segs_sound pat tgt, match_segs_complete)
