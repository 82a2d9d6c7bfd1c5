-- ===== src/Curation/Dedup.antt =====
-- internal/memory/curation/dedup.go: Cluster up to its grouping by root, and the disjoint sets under
-- it. Arrays are functions on their indices. `similar` is whether the similarity of two entries'
-- texts, which is floating point, reaches the threshold.
pub mod Roots
pub mod Labels
pub mod Linked
use workhorse_agent.Prelude.{
  ℕ, zero, suc, ◌+◌, Bool, true, false, not, ◌&&◌, List, [], ◌∷◌, ◌++◌, Option, none, some, ltb,
  ◌==◌, get_elem?, length, if◌then◌else◌,
}

pub record UnionFind : Type 0 where
  pub parent : ℕ → ℕ
  pub size : ℕ → ℕ

unfoldable pub new_union_find : UnionFind
new_union_find = record { parent = λ i. i; size = λ i. 1 }

-- a[i] = v
unfoldable pub set : ℕ → ℕ → (ℕ → ℕ) → ℕ → ℕ
set i v a j = if j == i then v else a j

-- The root and the array after path halving; the fuel bounds the rounds of the loop.
unfoldable pub find : ℕ → (ℕ → ℕ) → ℕ → ℕ × (ℕ → ℕ)
find zero p x = (x, p)
find (suc n) p x =
    let rest = find n (set x (p (p x)) p) (p (p x)) in if p x == x then (x, p) else rest

-- The second root goes under the first.
unfoldable pub link : ℕ → ℕ → UnionFind → UnionFind
link ra rb u = record { parent = set rb ra u.parent; size = set ra (u.size ra + u.size rb) u.size }

unfoldable pub join_roots : ℕ → ℕ → UnionFind → UnionFind
join_roots ra rb u =
    if ra == rb then u else if ltb (u.size ra) (u.size rb) then link rb ra u else link ra rb u

unfoldable pub union : ℕ → ℕ → ℕ → UnionFind → UnionFind
union fuel a b u =
    let (ra, p) = find fuel u.parent a in
    let (rb, q) = find fuel p b in join_roots ra rb (record u { parent = q })

module _ {Entry : Type 0} (pinned : Entry → Bool) (similar : Entry → Entry → Bool) where
  abbrev entry_test : (Entry → Bool) → Option Entry → Bool
  entry_test f none = false
  entry_test f (some e) = f e

  -- The guards of `consider` and its comparison.
  unfoldable pub joins : List Entry → ℕ × ℕ → Bool
  joins es (i, j) =
      not (i == j)
      && entry_test
          (λ x. not (pinned x) && entry_test (λ y. not (pinned y) && similar x y) (get_elem? es j))
          (get_elem? es i)

  unfoldable pub consider : ℕ → List Entry → ℕ × ℕ → UnionFind → UnionFind
  consider fuel es (i, j) u = if joins es (i, j) then union fuel i j u else u

  unfoldable pub consider_all : ℕ → List Entry → List (ℕ × ℕ) → UnionFind → UnionFind
  consider_all fuel es [] u = u
  consider_all fuel es (p ∷ ps) u = consider_all fuel es ps (consider fuel es p u)

-- for j := i + 1; …, and the same for every i, over `count` indices.
unfoldable pub pairs_of : (i j count : ℕ) → List (ℕ × ℕ)
pairs_of i j zero = []
pairs_of i j (suc k) = (i, j) ∷ pairs_of i (suc j) k

unfoldable pub all_pairs : (i count : ℕ) → List (ℕ × ℕ)
all_pairs i zero = []
all_pairs i (suc k) = pairs_of i (suc i) k ++ all_pairs (suc i) k
