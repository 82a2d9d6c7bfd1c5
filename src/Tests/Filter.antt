-- ===== src/Tests/Filter.antt =====
-- A registry of two tools and the lists that deny one of them.
use workhorse_agent.Prelude.{
  ◌≡◌, refl, ℕ, Bool, true, false, [], ◌∷◌, Text, text_eq, any, keep_if, none, Dict, arith,
}
use workhorse_agent.Tools.Registry.{Tool, returned}
use workhorse_agent.Tools.Filter.{has_name, is_glob, apply_deny_filter, filtered}
use workhorse_agent.Tools.Filter.Exposed.{named, deny-hides, deny-glob_exposes}

abbrev tool : ℕ → Tool ℕ
tool n = record {
  name = n ∷ [];
  can_run_in_parallel = false;
  default_timeout = 0;
  run = λ input s. returned none;
}

abbrev registry : Dict (Tool ℕ)
registry = (1 ∷ [], tool 1) ∷ (2 ∷ [], tool 2) ∷ []

-- A glob of a star matches every name.
abbrev star : Text → Text → Bool
star g n = text_eq g (42 ∷ [])

deny-hides_example :
    any
      (named (1 ∷ []))
      (filtered star (apply_deny_filter ((1 ∷ []) ∷ (2 ∷ []) ∷ []) ((1 ∷ []) ∷ [])) registry)
    ≡ false
unfolding has_name is_glob any text_eq apply_deny_filter keep_if
deny-hides_example =
    deny-hides star ((1 ∷ []) ∷ (2 ∷ []) ∷ []) ((1 ∷ []) ∷ []) (1 ∷ []) registry (refl, (refl, tt))
      refl (λ e. ground (arith, e)) refl

deny-glob_exposes_example :
    any
      (named (1 ∷ []))
      (filtered star (apply_deny_filter ((42 ∷ []) ∷ []) ((1 ∷ []) ∷ [])) registry)
    ≡ true
unfolding has_name is_glob any text_eq
deny-glob_exposes_example =
    deny-glob_exposes star ((42 ∷ []) ∷ []) ((1 ∷ []) ∷ []) (42 ∷ []) (1 ∷ []) registry
      (refl, (refl, tt)) refl refl refl refl refl refl
