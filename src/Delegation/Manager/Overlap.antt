-- ===== src/Delegation/Manager/Overlap.antt =====
-- Two calls of Start that overlap: the second counts before the first writes.
use workhorse_agent.Prelude.{
  ◌≡◌, ◌⊎◌, refl, sym, ap, ◌∙◌, ℕ, zero, suc, ◌<◌, Bool, true, false, ◌&&◌, ◌||◌, List, [], ◌∷◌,
  ◌++◌, Option, none, some, Text, text_eq, any, any-append, if◌then◌else◌, arith, inl, inr,
  Bool-cases, Option-cases,
}
use workhorse_agent.Delegation.Rows.{Delegation, has_id, create_delegation, count_running}
use workhorse_agent.Delegation.Manager.{
  World, Request, started, refused, refusal, admit, create, start, max_concurrent, generate,
  generate_unique, new_delegation, too_many, Unique, unique, no_random, id_exhausted,
}
use workhorse_agent.Delegation.Manager.Cap.{admit-adds}

-- A call that finds an unused id finds it still where other ids are used besides.
module _ (exists more : Text → Bool) (draws : ℕ → Option ℕ × Option ℕ × Option ℕ) (id : Text)
    (grows : (t : Text) → exists t ≡ true → more t ≡ true) (free : more id ≡ false) where
  abbrev Stays : Unique → Unique → Type 0
  Stays u v = u ≡ unique id → v ≡ unique id

  drawn_again :
      (t : Text) (u v : Unique)
      → Stays u v
      → Stays (if exists t then u else unique t) (if more t then v else unique t)
  drawn_again t u v ih h = elim (Bool-cases (exists t)) [
    | inl used ↦ ground (arith, used, grows t used, ih, h)
    | inr new ↦
        let same : t ≡ id = ground (arith, h, new) in ground (arith, new, same, ap more same, free)
  ]

  generate_unique_again :
      (i k : ℕ) → Stays (generate_unique exists draws i k) (generate_unique more draws i k)
  unfolding generate_unique
  generate_unique_again i zero h = ground (arith, h)
  generate_unique_again i (suc k) h = elim (Option-cases (generate (draws i))) [
    | inl n ↦ ground (arith, h, n)
    | inr (t, e) ↦ ground (
      arith,
      e,
      h,
      drawn_again t (generate_unique exists draws (suc i) k) (generate_unique more draws (suc i) k)
          (generate_unique_again (suc i) k),
    )
  ]

-- What a call that starts has met.
pub record Starts (e : World) (r : Request) (rows rows' : List Delegation) (id : Text)
    : Type 0 where
  pub passes : refusal e r rows ≡ none
  pub draws : generate_unique (λ t. e.reads && any (has_id t) rows) e.draws 0 20 ≡ unique id
  pub writes : e.writes ≡ true
  pub unused : any (has_id id) rows ≡ false
  pub adds : rows' ≡ rows ++ new_delegation e r id ∷ []

create-started :
    (e : World) (r : Request) (rows rows' : List Delegation) (i id : Text)
    → create e r rows i ≡ started id rows'
    → (i ≡ id)
      × (e.writes ≡ true)
      × (any (has_id i) rows ≡ false)
      × (rows' ≡ rows ++ new_delegation e r i ∷ [])
unfolding create create_delegation
create-started e r rows rows' i id h = ground (arith, h)

Unique-cases : (u : Unique) → (u ≡ no_random) ⊎ (u ≡ id_exhausted) ⊎ ((id : Text) × (u ≡ unique id))
Unique-cases no_random = inl refl
Unique-cases id_exhausted = inr (inl refl)
Unique-cases (unique id) = inr (inr (id, refl))

start-Starts :
    (e : World) (r : Request) (rows rows' : List Delegation) (id : Text)
    → start e r rows ≡ started id rows'
    → Starts e r rows rows' id
unfolding start admit
start-Starts e r rows rows' id h = elim (Option-cases (refusal e r rows)) [
  | inr (err, q) ↦ absurd (ground (arith, h, q))
  | inl n ↦
      elim (Unique-cases (generate_unique (λ t. e.reads && any (has_id t) rows) e.draws 0 20)) [
        | inl q ↦ absurd (ground (arith, h, n, q))
        | inr (inl q) ↦ absurd (ground (arith, h, n, q))
        | inr (inr (i, q)) ↦
            let (same, w, u, a) = create-started e r rows rows' i id (ground (arith, h, n, q)) in
            record {
              passes = n;
              draws = q ∙ ap unique same;
              writes = w;
              unused = ap (λ t. any (has_id t) rows) (sym same) ∙ u;
              adds = a ∙ ap (λ t. rows ++ new_delegation e r t ∷ []) same;
            }
      ]
]

any_more :
    (id : Text) (rows : List Delegation) (d : Delegation)
    → any (has_id id) (rows ++ d ∷ []) ≡ (any (has_id id) rows || text_eq d.id id)
unfolding any has_id
any_more id rows d = ground (arith, any-append (has_id id) rows (d ∷ []))

-- A call that has passed its checks on a table still starts once another row is added to it.
admit_later :
    (e : World) (r : Request) (rows rows' : List Delegation) (id : Text) (d : Delegation)
    → Starts e r rows rows' id
    → text_eq d.id id ≡ false
    → admit e r (rows ++ d ∷ []) ≡ started id ((rows ++ d ∷ []) ++ new_delegation e r id ∷ [])
unfolding admit create create_delegation
admit_later e r rows rows' id d s other =
    let fresh = any_more id rows d in
    let drawn =
      generate_unique_again (λ t. e.reads && any (has_id t) rows)
        (λ t. e.reads && any (has_id t) (rows ++ d ∷ [])) e.draws id
        (λ t h. ground (arith, h, any_more t rows d)) (ground (arith, fresh, s.unused, other)) 0 20
        s.draws in
    ground (arith, drawn, s.writes, fresh, s.unused, other)

refusal-full :
    (e : World) (r : Request) (rows full : List Delegation)
    → refusal e r rows ≡ none
    → count_running full ≡ max_concurrent
    → refusal e r full ≡ some too_many
unfolding refusal
refusal-full e r rows full h c = ground (arith, h, c)

-- With one place left, and two calls of Start that would each take it alone, under two ids: one
-- after the other, the second is refused; where the second checks before the first writes, both
-- start, and more than MaxConcurrent delegations run.
pub overlapping_starts-uncapped :
    (e e' : World) (r r' : Request) (rows rows1 rows2 : List Delegation) (id id' : Text)
    → suc (count_running rows) ≡ max_concurrent
    → start e r rows ≡ started id rows1
    → start e' r' rows ≡ started id' rows2
    → text_eq id id' ≡ false
    → (start e' r' rows1 ≡ refused too_many)
      × (refusal e' r' rows ≡ none)
      × ((both : List Delegation) × (admit e' r' rows1 ≡ started id' both)
          × (max_concurrent < count_running both))
unfolding start
overlapping_starts-uncapped e e' r r' rows rows1 rows2 id id' left h h' other =
    let s = start-Starts e r rows rows1 id h in
    let s' = start-Starts e' r' rows rows2 id' h' in
    let d = new_delegation e r id in
    let first : count_running rows1 ≡ max_concurrent =
      omega (arith, left, admit-adds e r rows rows1 id (ground (arith, h, s.passes))) in
    let later = ap (admit e' r') s.adds ∙ admit_later e' r' rows rows2 id' d s' other in
    (
      ground (arith, refusal-full e' r' rows rows1 s'.passes first),
      s'.passes,
      (
        (rows ++ d ∷ []) ++ new_delegation e' r' id' ∷ [],
        later,
        omega (arith, first, admit-adds e' r' rows1 _ id' later),
      ),
    )
