-- ===== src/Permission/Segment/Plain.antt =====
-- A pattern segment with no metacharacter compares literally.
use workhorse_agent.Prelude.{
  ℕ, ◌≡◌, refl, Bool, true, false, ◌||◌, [], ◌∷◌, map, some, none, Text, text_eq, length, ◌==◌, All,
  arith, codes,
}
use workhorse_agent.Permission.Segment.{
  literal, one, next_item, compile_from, match_items, segment_match,
}

-- No `*`, `?`, `[` or backslash.
abbrev pub is_meta : ℕ → Bool
is_meta c = (c == b'*') || (c == b'?') || (c == b'[') || (c == 0x5c)

abbrev pub IsPlain : Text → Type 0
IsPlain = All (λ c. is_meta c ≡ false)

next_item-plain : (c : ℕ) (s : Text) → is_meta c ≡ false → next_item c s ≡ some (one (literal c), s)
unfolding next_item
next_item-plain c s h = ground arith

compile_from-plain :
    (s : Text) → IsPlain s → compile_from (length s) s ≡ some (map (λ c. one (literal c)) s)
unfolding compile_from
compile_from-plain [] h = refl
compile_from-plain (c ∷ s) h = ground (arith, next_item-plain c s h.0, compile_from-plain s h.1)

match_items-literals : (s t : Text) → match_items (map (λ c. one (literal c)) s) t ≡ text_eq s t
unfolding match_items text_eq
match_items-literals [] [] = refl
match_items-literals [] (d ∷ t) = refl
match_items-literals (c ∷ s) [] = refl
match_items-literals (c ∷ s) (d ∷ t) = ground (arith, match_items-literals s t)

pub segment_match-plain : (s t : Text) → IsPlain s → segment_match s t ≡ some (text_eq s t)
unfolding segment_match
segment_match-plain s t h = ground (arith, compile_from-plain s h, match_items-literals s t)

class_runs : segment_match (codes "a[0-9x]*") (codes "a7bc") ≡ some true
unfolding segment_match codes
class_runs = refl

bad_runs : segment_match (codes "a[]") (codes "a") ≡ none
unfolding segment_match codes
bad_runs = refl
