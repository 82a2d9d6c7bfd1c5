-- ===== src/Permission/Segment.antt =====
-- One path segment against one pattern segment: what internal/permission/glob.go uses of
-- `filepath.Match`, in two passes. `compile` reads the pattern (`none` is ErrBadPattern) and
-- `match_items` runs it. Bytes stand for characters, as they do in ASCII.
pub mod Plain
use workhorse_agent.Prelude.{
  ℕ, zero, suc, ◌+◌, Bool, true, false, ◌&&◌, ◌||◌, not, List, [], ◌∷◌, Option, none, some, Text,
  length, leb, ◌==◌, if◌then◌else◌, ◌>>=◌,
}

-- One character of the target is tested by an `Atom`; a `star` takes any run of them.
pub data Atom : Type 0 where
  literal : ℕ → Atom
  any_char : Atom
  class : Bool → List (ℕ × ℕ) → Atom

pub data Item : Type 0 where
  star : Item
  one : Atom → Item

in_ranges : List (ℕ × ℕ) → ℕ → Bool
in_ranges [] c = false
in_ranges ((lo, hi) ∷ rs) c = (leb lo c && leb c hi) || in_ranges rs c

unfoldable pub accepts : Atom → ℕ → Bool
unfolding in_ranges
accepts (literal x) c = c == x
accepts any_char c = not (c == b'/')
accepts (class negated rs) c = if negated then not (in_ranges rs c) else in_ranges rs c

-- The character after a backslash.
escaped : Text → Option (ℕ × Text)
escaped [] = none
escaped (d ∷ s) = some (d, s)

non_empty_rest : ℕ × Text → Option (ℕ × Text)
non_empty_rest (c, []) = none
non_empty_rest (c, d ∷ s) = some (c, d ∷ s)

-- getEsc: one end of a range. The pattern may not end there.
get_esc : Text → Option (ℕ × Text)
get_esc [] = none
get_esc (c ∷ s) =
    if (c == b'-') || (c == b']')
    then none
    else (if c == 0x5c then escaped s else some (c, s)) >>= non_empty_rest

upper_end : ℕ → Text → Option ((ℕ × ℕ) × Text)
upper_end lo [] = some ((lo, lo), [])
upper_end lo (c ∷ s) =
    if c == b'-' then (get_esc s >>= λ e. some ((lo, e.0), e.1)) else some ((lo, lo), c ∷ s)

-- The ranges of a class up to its `]`, which cannot come first.
ranges : ℕ → Bool → Text → Option (List (ℕ × ℕ) × Text)
ranges zero seen s = none
ranges (suc f) seen [] = none
ranges (suc f) seen (c ∷ s) =
    let more = get_esc (c ∷ s) >>= λ e.
    upper_end e.0 e.1 >>= λ r. ranges f true r.1 >>= λ rs. some (r.0 ∷ rs.0, rs.1) in
    if (c == b']') && seen then some ([], s) else more

class_body : Bool → Text → Option (Item × Text)
class_body negated s = ranges (length s + 1) false s >>= λ r. some (one (class negated r.0), r.1)

class_item : Text → Option (Item × Text)
class_item [] = none
class_item (c ∷ s) = if c == b'^' then class_body true s else class_body false (c ∷ s)

-- One item from the front of a pattern.
unfoldable pub next_item : ℕ → Text → Option (Item × Text)
unfolding class_item class_body ranges upper_end get_esc escaped non_empty_rest
next_item c s =
    if c == b'*'
    then some (star, s)
    else if c == b'?'
    then some (one any_char, s)
    else if c == b'['
    then class_item s
    else if c == 0x5c
    then (escaped s >>= λ e. some (one (literal e.0), e.1))
    else some (one (literal c), s)

-- Each item takes at least one character, so the length of the pattern is fuel enough.
unfoldable pub compile_from : ℕ → Text → Option (List Item)
unfolding next_item
compile_from f [] = some []
compile_from zero (c ∷ s) = none
compile_from (suc f) (c ∷ s) = next_item c s >>= λ e. compile_from f e.1 >>= λ is. some (e.0 ∷ is)

unfoldable pub compile : Text → Option (List Item)
unfolding compile_from
compile p = compile_from (length p) p

unfoldable pub match_items : List Item → Text → Bool
unfolding accepts
match_items [] [] = true
match_items [] (c ∷ s) = false
match_items (star ∷ is) [] = match_items is []
match_items (star ∷ is) (c ∷ s) = elim (match_items is (c ∷ s)) [
  | true ↦ true
  | false ↦ not (c == b'/') && match_items (star ∷ is) s
]
match_items (one a ∷ is) [] = false
match_items (one a ∷ is) (c ∷ s) = accepts a c && match_items is s

-- filepath.Match(pattern, target); `none` is its error.
unfoldable pub segment_match : Text → Text → Option Bool
unfolding compile match_items
segment_match p t = compile p >>= λ is. some (match_items is t)
