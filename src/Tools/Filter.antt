-- ===== src/Tools/Filter.antt =====
-- Filtered and sortedKeys of internal/tools/registry.go, with applyDenyFilter and AllowedTools of
-- internal/session/session.go, which make the list that the agent loop filters by. `glob` is
-- path.Match, false where the pattern is malformed.
pub mod Exposed
use workhorse_agent.Prelude.{
  ℕ, Bool, true, false, not, ◌&&◌, ◌||◌, List, [], ◌∷◌, ◌++◌, Option, none, some, Text, text_eq,
  any, keep_if, ltb, ◌==◌, if◌then◌else◌, Dict,
}
use workhorse_agent.Tools.Registry.{Tool}

-- The order of strings, by bytes.
unfoldable pub text_le : Text → Text → Bool
text_le [] t = true
text_le (c ∷ cs) [] = false
text_le (c ∷ cs) (d ∷ ds) =
    let rest = text_le cs ds in if ltb c d then true else if c == d then rest else false

-- strings.ContainsAny(a, "*?[")
unfoldable pub is_glob : Text → Bool
is_glob a = any (λ c. c == 42 || c == 63 || c == 91) a

unfoldable pub has_name : List Text → Text → Bool
has_name names n = any (text_eq n) names

-- The names that are not banned.
unfoldable pub apply_deny_filter : List Text → List Text → List Text
apply_deny_filter allowed [] = allowed
apply_deny_filter allowed (d ∷ ds) = keep_if (λ t. not (has_name (d ∷ ds) t)) allowed

-- An exact entry for the name, or a glob entry that matches it.
unfoldable pub admits : (Text → Text → Bool) → List Text → Text → Bool
admits glob allowed n =
    has_name (keep_if (λ a. not (is_glob a)) allowed) n
    || any (λ g. glob g n) (keep_if is_glob allowed)

module _ {Target : Type 0} where
  unfoldable pub insert_by_name : Text × Tool Target → Dict (Tool Target) → Dict (Tool Target)
  insert_by_name e [] = e ∷ []
  insert_by_name e (f ∷ fs) =
      let rest = insert_by_name e fs in if text_le e.0 f.0 then e ∷ f ∷ fs else f ∷ rest

  unfoldable pub sorted : Dict (Tool Target) → Dict (Tool Target)
  sorted [] = []
  sorted (e ∷ es) = insert_by_name e (sorted es)

  unfoldable pub values : Dict (Tool Target) → List (Tool Target)
  values [] = []
  values ((n, t) ∷ es) = t ∷ values es

  module _ (glob : Text → Text → Bool) where
    unfoldable pub filtered : List Text → Dict (Tool Target) → List (Tool Target)
    unfolding keep_if
    filtered [] reg = values (sorted reg)
    filtered (a ∷ rest) reg = values (keep_if (λ e. admits glob (a ∷ rest) e.0) (sorted reg))
