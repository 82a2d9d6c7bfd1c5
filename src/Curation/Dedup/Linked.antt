-- ===== src/Curation/Dedup/Linked.antt =====
-- The disjoint sets refine connectedness: after any unions two indices have one root just where a
-- chain of the united pairs links them.
use workhorse_agent.Prelude.{
  ◌≡◌, ◌↔◌, refl, sym, ◌∙◌, ℕ, zero, suc, ◌+◌, ◌-◌, ◌≤◌, Bool, true, false, ◌==◌, List, [], ◌∷◌,
  ◌++◌, any, keep_if, length, ltb, if◌then◌else◌, arith, Bool-cases, inl, inr,
}
use mathlib.Core.Path.{subst}
use mathlib.Core.List.{append_assoc, append-nil}
use workhorse_agent.Curation.Dedup.{
  UnionFind, new_union_find, find, link, join_roots, union, joins, consider, consider_all,
}
use workhorse_agent.Curation.Dedup.Roots.{
  walk, Reaches, Flat, find-Finds, Reaches-suc, walk-suc, merged, linked-walk,
}
use workhorse_agent.Curation.Dedup.Labels.{
  edge, same, flip, chain, has_pair, Linked, Labels, last_pair, same-Labels, merge-Labels,
}

-- The state after the pairs `es` were united, `n` of them at most.
pub record Refines (n : ℕ) (es : List (ℕ × ℕ)) (u : UnionFind) : Type 0 where
  pub flat : Flat n u.parent
  pub labels : Labels es (walk n u.parent)

Reaches-add : (m n : ℕ) (p : ℕ → ℕ) (x : ℕ) → Reaches n p x → Reaches (m + n) p x
Reaches-add zero n p x r = subst (λ k. Reaches k p x) (omega arith) r
Reaches-add (suc m) n p x r =
    subst (λ k. Reaches k p x) (omega arith) (Reaches-suc (m + n) p x (Reaches-add m n p x r))

Labels-same : (es : List (ℕ × ℕ)) (f g : ℕ → ℕ) → ((y : ℕ) → g y ≡ f y) → Labels es f → Labels es g
Labels-same es f g h l = record {
  sound = λ y z e. l.sound y z (sym (h y) ∙ e ∙ h z);
  complete = λ e. h _ ∙ l.complete e ∙ sym (h _);
}

-- A step more to the roots changes nothing.
Refines-suc : (n : ℕ) (es : List (ℕ × ℕ)) (u : UnionFind) → Refines n es u → Refines (suc n) es u
Refines-suc n es u r = record {
  flat = λ x. Reaches-suc n u.parent x (r.flat x);
  labels =
      Labels-same es (walk n u.parent) (walk (suc n) u.parent)
        (λ y. walk-suc n u.parent y (r.flat y)) r.labels;
}

link-Refines :
    (n : ℕ) (es : List (ℕ × ℕ)) (a b c d : ℕ) (u : UnionFind)
    → Refines n es u
    → Linked (es ++ (a, b) ∷ []) c d
    → (walk n u.parent c == walk n u.parent d) ≡ false
    → merged (walk n u.parent c) (walk n u.parent d) (walk n u.parent a)
      ≡ merged (walk n u.parent c) (walk n u.parent d) (walk n u.parent b)
    → Refines (suc n) (es ++ (a, b) ∷ []) (link (walk n u.parent c) (walk n u.parent d) u)
unfolding link
link-Refines n es a b c d u r l ne e =
    let step = λ (y : ℕ).
      linked-walk n (walk n u.parent c) (walk n u.parent d) u.parent y (r.flat c) (r.flat d) ne
        (r.flat y) in
    record {
      flat = λ y. (step y).0;
      labels =
          Labels-same (es ++ (a, b) ∷ [])
            (λ y. merged (walk n u.parent c) (walk n u.parent d) (walk n u.parent y)) _
            (λ y. (step y).1) (merge-Labels es a b c d (walk n u.parent) r.labels l e);
    }

-- What a union of the pair leaves, where its two roots are given.
join_roots-Refines :
    (n : ℕ) (es : List (ℕ × ℕ)) (a b : ℕ) (u : UnionFind)
    → Refines n es u
    → Refines (suc n) (es ++ (a, b) ∷ []) (join_roots (walk n u.parent a) (walk n u.parent b) u)
unfolding join_roots
join_roots-Refines n es a b u r =
    let ra = walk n u.parent a in
    let rb = walk n u.parent b in
    let pair = edge (last_pair es a b) in
    elim (Bool-cases (ra == rb)) [
      | inl e ↦
          subst
            (λ t.
              Refines (suc n) (es ++ (a, b) ∷ []) (
                if t
                then u
                else if ltb (u.size ra) (u.size rb)
                then link rb ra u
                else link ra rb u))
            (sym e)
            (Refines-suc n (es ++ (a, b) ∷ []) u (record {
              flat = r.flat;
              labels = same-Labels es a b (walk n u.parent) (ground (arith, e)) r.labels;
            }))
      | inr e ↦
          subst
            (λ t.
              Refines (suc n) (es ++ (a, b) ∷ []) (
                if t
                then u
                else if ltb (u.size ra) (u.size rb)
                then link rb ra u
                else link ra rb u))
            (sym e)
            (elim (ltb (u.size ra) (u.size rb))
              as (λ t.
                Refines (suc n) (es ++ (a, b) ∷ []) (if t then link rb ra u else link ra rb u)) [
                  | true ↦
                      link-Refines n es a b b a u r (flip pair) (ground (arith, e))
                        (ground (arith, e))
                  | false ↦ link-Refines n es a b a b u r pair e (ground (arith, e))
                ])
    ]

union-Refines :
    (m n : ℕ) (es : List (ℕ × ℕ)) (a b : ℕ) (u : UnionFind)
    → Refines n es u
    → Refines (suc n) (es ++ (a, b) ∷ []) (union (m + n) a b u)
unfolding union
union-Refines m n es a b u r =
    let (root_a, (flat1, same1)) =
      find-Finds (m + n) n u.parent a r.flat (Reaches-add m n u.parent a (r.flat a)) in
    let p = (find (m + n) u.parent a).1 in
    let (root_b, (flat2, same2)) = find-Finds (m + n) n p b flat1 (Reaches-add m n p b (flat1 b)) in
    let q = (find (m + n) p b).1 in
    let keeps = λ (y : ℕ). same2 y ∙ same1 y in
    subst
      (λ x.
        Refines (suc n) (es ++ (a, b) ∷ [])
          (join_roots x (find (m + n) p b).0 (record u { parent = q })))
      (keeps a ∙ sym root_a)
      (subst
        (λ x.
          Refines (suc n) (es ++ (a, b) ∷ []) (join_roots (walk n q a) x (record u { parent = q })))
        (same2 b ∙ sym root_b)
        (join_roots-Refines n es a b (record u { parent = q })
          (record {
            flat = flat2;
            labels = Labels-same es (walk n u.parent) (walk n q) keeps r.labels;
          })))

enough : (n fuel : ℕ) → n ≤ fuel → (fuel - n) + n ≡ fuel
enough n fuel h = omega (arith, h)

unlinked : {y z : ℕ} → Linked [] y z → y ≡ z
unfolding has_pair any
unlinked (edge h) = ground (arith, h)
unlinked same = refl
unlinked (flip h) = sym (unlinked h)
unlinked (chain h g) = unlinked h ∙ unlinked g

new_union_find-Refines : Refines 0 [] new_union_find
unfolding new_union_find walk
new_union_find-Refines = record {
  flat = λ x. refl;
  labels = record { sound = λ y z e. subst (Linked [] y) e same; complete = λ h. unlinked h };
}

-- The answers of find are the labels.
find-label :
    (fuel k : ℕ) (es : List (ℕ × ℕ)) (u : UnionFind) (y : ℕ)
    → k ≤ fuel
    → Refines k es u
    → (find fuel u.parent y).0 ≡ walk k u.parent y
find-label fuel k es u y h r =
    (find-Finds fuel k u.parent y r.flat (
      subst (λ f. Reaches f u.parent y) (enough k fuel h)
        (Reaches-add (fuel - k) k u.parent y (r.flat y)))).0

module _ {Entry : Type 0} (pinned : Entry → Bool) (similar : Entry → Entry → Bool)
    (entries : List Entry) where
  -- The pairs that Cluster unites.
  abbrev pub united : List (ℕ × ℕ) → List (ℕ × ℕ)
  united ps = keep_if (joins pinned similar entries) ps

  consider_all-Refines :
      (fuel n : ℕ) (es ps : List (ℕ × ℕ)) (u : UnionFind)
      → n + length ps ≤ fuel
      → Refines n es u
      → (k : ℕ) × (k ≤ n + length ps)
        × Refines k (es ++ united ps) (consider_all pinned similar fuel entries ps u)
  unfolding consider_all consider keep_if
  consider_all-Refines fuel n es [] u h r =
      (n, omega arith, subst (λ xs. Refines n xs u) (sym (append-nil es)) r)
  consider_all-Refines fuel n es ((a, b) ∷ ps) u h r =
      (elim (joins pinned similar entries (a, b))
        as (λ t.
          (k : ℕ) × (k ≤ n + suc (length ps))
          × Refines k (es ++ (if t then (a, b) ∷ united ps else united ps))
              (consider_all pinned similar fuel entries ps (if t then union fuel a b u else u))) [
                | false ↦
                    let (k, le, last) = consider_all-Refines fuel n es ps u (omega (arith, h)) r in
                    (k, omega (arith, le), last)
                | true ↦
                    let (k, le, last) =
                      consider_all-Refines fuel (suc n) (es ++ (a, b) ∷ []) ps (union fuel a b u)
                        (omega (arith, h))
                        (subst (λ f. Refines (suc n) (es ++ (a, b) ∷ []) (union f a b u))
                          (enough n fuel (omega (arith, h)))
                          (union-Refines (fuel - n) n es a b u r)) in
                    (
                      k,
                      omega (arith, le),
                      subst
                          (λ xs.
                            Refines k xs
                              (consider_all pinned similar fuel entries ps (union fuel a b u)))
                          (append_assoc es ((a, b) ∷ []) (united ps)) last,
                    )
              ])

  -- After Cluster has considered a list of pairs, on fuel for as many rounds of find as there are
  -- pairs, two indices have the same root just where the pairs that it united link them: the pairs
  -- of two different entries in range, neither pinned, that are similar.
  pub consider_all-Linked :
      (ps : List (ℕ × ℕ)) (y z : ℕ)
      → (let u = consider_all pinned similar (length ps) entries ps new_union_find in
          (find (length ps) u.parent y).0 ≡ (find (length ps) u.parent z).0)
        ↔ Linked (united ps) y z
  consider_all-Linked ps y z =
      let u = consider_all pinned similar (length ps) entries ps new_union_find in
      let (k, le, r) =
        consider_all-Refines (length ps) 0 [] ps new_union_find (omega arith)
          new_union_find-Refines in
      let at = λ (x : ℕ). find-label (length ps) k (united ps) u x (omega (arith, le)) r in
      (
        (λ e. r.labels.sound y z (sym (at y) ∙ e ∙ at z)),
        (λ l. at y ∙ r.labels.complete l ∙ sym (at z)),
      )
