-- ===== src/Permission/Glob.antt =====
-- The rule patterns of internal/permission/glob.go.
pub mod Meaning
pub mod Literal
use workhorse_agent.Prelude.{
  ℕ, Bool, true, false, ◌&&◌, List, [], ◌∷◌, none, some, Text, text_eq, codes, ◌==◌, if◌then◌else◌,
}
use workhorse_agent.Permission.Segment.{segment_match}

pub cons_first : ℕ → List Text → List Text
cons_first c [] = (c ∷ []) ∷ []
cons_first c (x ∷ xs) = (c ∷ x) ∷ xs

-- strings.Split(s, "/")
unfoldable pub split : Text → List Text
unfolding cons_first
split [] = [] ∷ []
split (c ∷ s) = let rest = split s in if c == b'/' then [] ∷ rest else cons_first c rest

unfoldable pub double_star : Text
unfolding codes
double_star = codes "**"

-- The loop over `tgt[i:]` for i from 0 to len(tgt).
unfoldable pub any_tail : (List Text → Bool) → List Text → Bool
any_tail f [] = f []
any_tail f (t ∷ ts) = elim (f (t ∷ ts)) [ true ↦ true | false ↦ any_tail f ts ]

unfoldable pub one_segment : Text → (List Text → Bool) → List Text → Bool
one_segment p next [] = false
one_segment p next (t ∷ ts) = elim (segment_match p t) [
  | none ↦ false
  | some fits ↦ fits && next ts
]

unfoldable pub match_segs : List Text → List Text → Bool
unfolding any_tail one_segment
match_segs [] [] = true
match_segs [] (t ∷ ts) = false
match_segs (p ∷ pat) tgt =
    if text_eq p double_star
    then any_tail (match_segs pat) tgt
    else one_segment p (match_segs pat) tgt

unfoldable pub match_glob : Text → Text → Bool
unfolding split match_segs
match_glob pattern target = match_segs (split pattern) (split target)
