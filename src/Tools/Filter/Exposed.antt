-- ===== src/Tools/Filter/Exposed.antt =====
-- Which tools a session's list exposes after its deny filter.
use workhorse_agent.Prelude.{
  ◌≡◌, ◌≢◌, refl, ap, ◌∙◌, Bool, true, false, not, ◌&&◌, ◌||◌, List, [], ◌∷◌, Text, text_eq,
  text_eq_iff, any, any-keep_if, keep_if, All, Dict, arith,
}
use workhorse_agent.Tools.Registry.{Tool}
use workhorse_agent.Tools.Filter.{
  is_glob, has_name, apply_deny_filter, insert_by_name, sorted, values, admits, filtered,
}

abbrev pub named : {Target : Type 0} → Text → Tool Target → Bool
named n t = text_eq t.name n

-- The registry's key for a tool is its name.
abbrev pub KeyedByName : {Target : Type 0} → Dict (Tool Target) → Type 0
KeyedByName reg = All (λ e. e.0 ≡ e.1.name) reg

-- No allowed entry survives the deny list.
nothing_left :
    (allowed denied : List Text)
    → All (λ t. has_name denied t ≡ true) allowed
    → keep_if (λ t. not (has_name denied t)) allowed ≡ []
unfolding keep_if
nothing_left [] denied h = refl
nothing_left (a ∷ rest) denied h = ground (arith, h.0, nothing_left rest denied h.1)

-- The exact entries that survive the deny list do not name a denied tool.
exact-denied :
    (allowed denied : List Text) (n : Text)
    → has_name denied n ≡ true
    → has_name (keep_if (λ a. not (is_glob a)) (keep_if (λ t. not (has_name denied t)) allowed)) n
      ≡ false
unfolding has_name keep_if any
exact-denied [] denied n h = refl
exact-denied (a ∷ rest) denied n h =
    ground (arith, h, exact-denied rest denied n, text_eq_iff n a, ap (λ x. any (text_eq x) denied))

no_globs :
    (p q : Text → Bool) (allowed : List Text)
    → any is_glob allowed ≡ false
    → any q (keep_if is_glob (keep_if p allowed)) ≡ false
unfolding keep_if any
no_globs p q [] h = refl
no_globs p q (a ∷ rest) h = ground (arith, h, no_globs p q rest)

glob_left :
    (p : Text → Bool) (glob : Text → Text → Bool) (g n : Text) (allowed : List Text)
    → is_glob g ≡ true
    → glob g n ≡ true
    → any (text_eq g) allowed ≡ true
    → p g ≡ true
    → any (λ y. glob y n) (keep_if is_glob (keep_if p allowed)) ≡ true
unfolding keep_if any
glob_left p glob g n [] i m a h = a
glob_left p glob g n (x ∷ rest) i m a h = ground (
  arith,
  i,
  m,
  a,
  h,
  glob_left p glob g n rest i m,
  text_eq_iff g x,
  ap is_glob,
  ap p,
  ap (λ y. glob y n),
)

module _ {Target : Type 0} where
  insert_by_name-any :
      (p : Text × Tool Target → Bool) (e : Text × Tool Target) (es : Dict (Tool Target))
      → any p (insert_by_name e es) ≡ (p e || any p es)
  unfolding insert_by_name any
  insert_by_name-any p e [] = refl
  insert_by_name-any p e (f ∷ fs) = ground (arith, insert_by_name-any p e fs)

  sorted-any :
      (p : Text × Tool Target → Bool) (es : Dict (Tool Target)) → any p (sorted es) ≡ any p es
  unfolding sorted any
  sorted-any p [] = refl
  sorted-any p (e ∷ es) = ground (arith, insert_by_name-any p e (sorted es), sorted-any p es)

  values-any :
      (n : Text) (es : Dict (Tool Target)) → any (named n) (values es) ≡ any (λ e. named n e.1) es
  unfolding values any
  values-any n [] = refl
  values-any n ((k, t) ∷ es) = ground (arith, values-any n es)

  module _ (glob : Text → Text → Bool) where
    -- A list that is not empty exposes a name just where the registry has it and the list admits it.
    filtered-named :
        (a n : Text) (rest : List Text) (reg : Dict (Tool Target))
        → any (named n) (filtered glob (a ∷ rest) reg)
          ≡ any (λ e. admits glob (a ∷ rest) e.0 && named n e.1) reg
    unfolding filtered
    filtered-named a n rest reg =
        values-any n (keep_if (λ e. admits glob (a ∷ rest) e.0) (sorted reg))
        ∙ any-keep_if (λ e. named n e.1) (λ e. admits glob (a ∷ rest) e.0) (sorted reg)
        ∙ sorted-any (λ e. admits glob (a ∷ rest) e.0 && named n e.1) reg

    filtered-some :
        (allowed : List Text) (n : Text) (reg : Dict (Tool Target))
        → allowed ≢ []
        → any (named n) (filtered glob allowed reg)
          ≡ any (λ e. admits glob allowed e.0 && named n e.1) reg
    filtered-some [] n reg h = absurd (h refl)
    filtered-some (a ∷ rest) n reg h = filtered-named a n rest reg

    admitted-none :
        (allowed : List Text) (n : Text) (reg : Dict (Tool Target))
        → KeyedByName reg
        → admits glob allowed n ≡ false
        → any (λ e. admits glob allowed e.0 && named n e.1) reg ≡ false
    unfolding any
    admitted-none allowed n [] k h = refl
    admitted-none allowed n ((j, t) ∷ es) k h = ground (
      arith,
      h,
      k.0,
      admitted-none allowed n es k.1,
      text_eq_iff t.name n,
      ap (λ x. admits glob allowed x) k.0,
    )

    admitted-some :
        (allowed : List Text) (n : Text) (reg : Dict (Tool Target))
        → KeyedByName reg
        → admits glob allowed n ≡ true
        → any (λ e. named n e.1) reg ≡ true
        → any (λ e. admits glob allowed e.0 && named n e.1) reg ≡ true
    unfolding any
    admitted-some allowed n [] k h r = r
    admitted-some allowed n ((j, t) ∷ es) k h r = ground (
      arith,
      h,
      k.0,
      r,
      admitted-some allowed n es k.1,
      text_eq_iff t.name n,
      ap (λ x. admits glob allowed x) k.0,
    )

    -- If the deny list names every allowed entry, the session is exposed what it is without a
    -- filter: every tool.
    deny-exposes_every :
        (allowed denied : List Text) (reg : Dict (Tool Target))
        → All (λ t. has_name denied t ≡ true) allowed
        → filtered glob (apply_deny_filter allowed denied) reg ≡ filtered glob [] reg
    unfolding apply_deny_filter has_name any
    deny-exposes_every [] [] reg h = refl
    deny-exposes_every (a ∷ rest) [] reg h = ground (arith, h.0)
    deny-exposes_every allowed (d ∷ ds) reg h =
        ap (λ xs. filtered glob xs reg) (nothing_left allowed (d ∷ ds) h)

    -- In a registry keyed by the tools' names, a denied tool is not exposed, if no allowed entry
    -- is a glob and one of them is not denied.
    pub deny-hides :
        (allowed denied : List Text) (n : Text) (reg : Dict (Tool Target))
        → KeyedByName reg
        → any is_glob allowed ≡ false
        → apply_deny_filter allowed denied ≢ []
        → has_name denied n ≡ true
        → any (named n) (filtered glob (apply_deny_filter allowed denied) reg) ≡ false
    unfolding apply_deny_filter has_name any admits
    deny-hides allowed [] n reg k g s d = ground (arith, d)
    deny-hides allowed (x ∷ ds) n reg k g s d =
        let left = keep_if (λ t. not (has_name (x ∷ ds) t)) allowed in
        filtered-some left n reg s
        ∙ admitted-none left n reg k (
            ground (
              arith,
              exact-denied allowed (x ∷ ds) n d,
              no_globs (λ t. not (has_name (x ∷ ds) t)) (λ y. glob y n) allowed g,
            ))

    -- A registered tool that is denied stays exposed, if a glob entry of the allowed list matches
    -- it and the deny list does not name the entry itself.
    pub deny-glob_exposes :
        (allowed denied : List Text) (g n : Text) (reg : Dict (Tool Target))
        → KeyedByName reg
        → has_name allowed g ≡ true
        → is_glob g ≡ true
        → glob g n ≡ true
        → has_name denied g ≡ false
        → has_name denied n ≡ true
        → any (λ e. named n e.1) reg ≡ true
        → any (named n) (filtered glob (apply_deny_filter allowed denied) reg) ≡ true
    unfolding apply_deny_filter has_name any admits keep_if
    deny-glob_exposes allowed [] g n reg k a i m f d r = ground (arith, d)
    deny-glob_exposes allowed (x ∷ ds) g n reg k a i m f d r =
        let left = keep_if (λ t. not (has_name (x ∷ ds) t)) allowed in
        let found =
          glob_left (λ t. not (has_name (x ∷ ds) t)) glob g n allowed i m a (ground (arith, f)) in
        filtered-some left n reg
          (λ e. ground (arith, found, ap (λ xs. any (λ y. glob y n) (keep_if is_glob xs)) e))
        ∙ admitted-some left n reg k (ground (arith, found)) r
