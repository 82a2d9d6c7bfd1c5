-- ===== src/Tests/Dedup.antt =====
-- Four entries, of which the first two and the last two are similar; the third is pinned.
use workhorse_agent.Prelude.{◌≡◌, ◌↔◌, ℕ, Bool, ◌/◌, ◌==◌, List, [], ◌∷◌, length}
use workhorse_agent.Curation.Dedup.{new_union_find, find, consider_all, all_pairs}
use workhorse_agent.Curation.Dedup.Labels.{Linked}
use workhorse_agent.Curation.Dedup.Linked.{united, consider_all-Linked}

abbrev entries : List ℕ
entries = 0 ∷ 1 ∷ 2 ∷ 3 ∷ []

abbrev pinned : ℕ → Bool
pinned e = e == 2

abbrev similar : ℕ → ℕ → Bool
similar x y = x / 2 == y / 2

abbrev every_pair : List (ℕ × ℕ)
every_pair = all_pairs 0 4

consider_all-Linked_example :
    (let u = consider_all pinned similar (length every_pair) entries every_pair new_union_find in
      (find (length every_pair) u.parent 0).0 ≡ (find (length every_pair) u.parent 1).0)
    ↔ Linked (united pinned similar entries every_pair) 0 1
consider_all-Linked_example = consider_all-Linked pinned similar entries every_pair 0 1
