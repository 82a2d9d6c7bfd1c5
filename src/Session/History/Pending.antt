-- ===== src/Session/History/Pending.antt =====
-- A pending map keyed by the id of its entries.
use workhorse_agent.Prelude.{
  ◌≡◌, refl, true, false, ◌||◌, if◌then◌else◌, List, [], ◌∷◌, Text, text_eq, text_eq_iff, Dict,
  lookup, insert, delete, lookup-insert, lookup-delete, is_some, any, All, map, arith,
}
use workhorse_agent.Provider.Pairing.{has}
use workhorse_agent.Session.History.{PendingToolUse, entries}

unfoldable pub ids : Dict PendingToolUse → List Text
unfolding entries
ids m = map (λ p. p.id) (entries m)

abbrev pub KeyedById : Dict PendingToolUse → Type 0
KeyedById m = All (λ e. e.0 ≡ e.1.id) m

pub delete-KeyedById : (k : Text) (m : Dict PendingToolUse) → KeyedById m → KeyedById (delete k m)
unfolding delete
delete-KeyedById k [] h = tt
delete-KeyedById k ((j, p) ∷ m) h =
    elim (text_eq j k) as (λ b. KeyedById (if b then delete k m else (j, p) ∷ delete k m)) [
      | true ↦ delete-KeyedById k m h.1
      | false ↦ (h.0, delete-KeyedById k m h.1)
    ]

pub insert-KeyedById :
    (p : PendingToolUse) (m : Dict PendingToolUse) → KeyedById m → KeyedById (insert p.id p m)
unfolding insert
insert-KeyedById p m h = (refl, delete-KeyedById p.id m h)

pub has-ids :
    (m : Dict PendingToolUse) (h : KeyedById m) (j : Text) → has (ids m) j ≡ is_some (lookup j m)
unfolding has ids entries lookup any
has-ids [] h j = refl
has-ids ((k, p) ∷ m) h j =
    ground (arith, h.0, has-ids m h.1 j, text_eq_iff j k, text_eq_iff k j, text_eq_iff j p.id)

pub has-insert :
    (p : PendingToolUse) (m : Dict PendingToolUse) (h : KeyedById m) (j : Text)
    → has (ids (insert p.id p m)) j ≡ (text_eq j p.id || has (ids m) j)
has-insert p m h j = ground (
  arith,
  has-ids m h j,
  has-ids (insert p.id p m) (insert-KeyedById p m h) j,
  lookup-insert p.id j p m,
  text_eq_iff j p.id,
  text_eq_iff p.id j,
)

pub has-delete :
    (k : Text) (m : Dict PendingToolUse) (h : KeyedById m) (j : Text)
    → has (ids (delete k m)) j ≡ (if text_eq j k then false else has (ids m) j)
has-delete k m h j = ground (
  arith,
  has-ids m h j,
  has-ids (delete k m) (delete-KeyedById k m h) j,
  lookup-delete k j m,
  text_eq_iff j k,
  text_eq_iff k j,
)

pub ids-empty : (m : Dict PendingToolUse) → ((j : Text) → has (ids m) j ≡ false) → m ≡ []
unfolding has ids entries any
ids-empty [] h = refl
ids-empty ((k, p) ∷ m) h = ground (arith, h p.id, text_eq_iff p.id p.id)
