-- ===== src/Delegation/Manager/Told.antt =====
-- Rows whose notice is given: each operation of the manager leaves them so.
use workhorse_agent.Prelude.{
  ◌≡◌, refl, ap, ◌∙◌, ℕ, Bool, true, false, not, ◌&&◌, List, [], ◌∷◌, none, some, Text, text_eq,
  text_eq_iff, any, any-append, is_some, arith, inl, inr, Bool-cases, Option-cases,
}
use workhorse_agent.Delegation.Rows.{
  Delegation, has_id, create_delegation, update, notified, mark_notified, reaped,
  reap_running_delegations,
}
use workhorse_agent.Delegation.Manager.{
  World, Request, Started, refused, refusal, admit, create, start, generate_unique, Unique, unique,
  no_random, id_exhausted, new_delegation, no_random_id, ids_exhausted,
}
use workhorse_agent.Delegation.Manager.Cap.{table, or_same}

-- A row of that id that no claim has stamped.

unfoldable pub unnotified : Text → List Delegation → Bool
unnotified id rows = any (λ d. has_id id d && not (is_some d.notified_at)) rows

-- The id is taken, and its notice is given.
abbrev pub Told : Text → List Delegation → Type 0
Told id rows = (any (has_id id) rows ≡ true) × (unnotified id rows ≡ false)

-- An update that keeps ids and stamps.
abbrev pub Keeps : (Delegation → Delegation) → Type 0
Keeps f =
    (d : Delegation)
    → ((f d).id ≡ d.id) × (is_some d.notified_at ≡ true → is_some (f d).notified_at ≡ true)

pub update-has :
    (id j : Text) (f : Delegation → Delegation) (rows : List Delegation)
    → Keeps f
    → any (has_id j) (update id f rows) ≡ any (has_id j) rows
unfolding update has_id any
update-has id j f [] k = refl
update-has id j f (d ∷ ds) k = ground (arith, update-has id j f ds k, (k d).0)

pub update-unnotified :
    (id j : Text) (f : Delegation → Delegation) (rows : List Delegation)
    → Keeps f
    → unnotified j rows ≡ false
    → unnotified j (update id f rows) ≡ false
unfolding update unnotified has_id any
update-unnotified id j f [] k h = refl
update-unnotified id j f (d ∷ ds) k h =
    ground (arith, h, update-unnotified id j f ds k, (k d).0, (k d).1)

pub update-Told :
    (id j : Text) (f : Delegation → Delegation) (rows : List Delegation)
    → Keeps f
    → Told j rows
    → Told j (update id f rows)
update-Told id j f rows k (t, u) = (update-has id j f rows k ∙ t, update-unnotified id j f rows k u)

pub notified-Keeps : (now : ℕ) → Keeps (notified now)
unfolding notified
notified-Keeps now d = (refl, λ h. refl)

pub mark_notified-Told :
    (now : ℕ) (j : Text) (ds rows : List Delegation)
    → Told j rows
    → Told j (mark_notified now ds rows)
unfolding mark_notified
mark_notified-Told now j [] rows t = t
mark_notified-Told now j (d ∷ ds) rows t =
    mark_notified-Told now j ds (update d.id (notified now) rows)
      (update-Told d.id j (notified now) rows (notified-Keeps now) t)

pub reap-has :
    (now : ℕ) (j : Text) (rows : List Delegation)
    → any (has_id j) (reap_running_delegations now rows) ≡ any (has_id j) rows
unfolding reap_running_delegations reaped has_id any
reap-has now j [] = refl
reap-has now j (d ∷ ds) = ground (arith, reap-has now j ds)

pub reap-unnotified :
    (now : ℕ) (j : Text) (rows : List Delegation)
    → unnotified j (reap_running_delegations now rows) ≡ unnotified j rows
unfolding reap_running_delegations reaped unnotified has_id any
reap-unnotified now j [] = refl
reap-unnotified now j (d ∷ ds) = ground (arith, reap-unnotified now j ds)

fresh-ne :
    (i j : Text) (rows : List Delegation)
    → any (has_id i) rows ≡ false
    → any (has_id j) rows ≡ true
    → text_eq i j ≡ false
fresh-ne i j rows h g = elim (Bool-cases (text_eq i j)) [
  | inr e ↦ e
  | inl e ↦ ground (arith, h, g, ap (λ k. any (has_id k) rows) ((text_eq_iff i j).0 e))
]

create-Told :
    (d : Delegation) (j : Text) (rows : List Delegation)
    → Told j rows
    → Told j (or_same rows (create_delegation d rows))
unfolding create_delegation unnotified has_id any
create-Told d j rows (t, u) = elim (Bool-cases (any (has_id d.id) rows)) [
  | inl e ↦ (ground (arith, e, t), ground (arith, e, u))
  | inr e ↦ (
    ground (arith, e, t, any-append (has_id j) rows (d ∷ [])),
    ground (
      arith,
      e,
      u,
      fresh-ne d.id j rows e t,
      any-append (λ x. has_id j x && not (is_some x.notified_at)) rows (d ∷ []),
    ),
  )
]

made-Told :
    (e : World) (r : Request) (id j : Text) (rows : List Delegation)
    → Told j rows
    → Told j (table rows (create e r rows id))
unfolding create
made-Told e r id j rows t =
    let told = create-Told (new_delegation e r id) j rows t in
    elim (Bool-cases e.writes) [
      | inr shut ↦ (ground (arith, shut, t.0), ground (arith, shut, t.1))
      | inl able ↦ elim (Option-cases (create_delegation (new_delegation e r id) rows)) [
        | inl n ↦ (ground (arith, able, n, t.0), ground (arith, able, n, t.1))
        | inr (made, q) ↦ (ground (arith, able, q, told.0), ground (arith, able, q, told.1))
      ]
    ]

with_id-Told :
    (e : World) (r : Request) (j : Text) (rows : List Delegation) (u : Unique)
    → Told j rows
    → Told j (
        table rows (elim u as (λ x. Started) [
          | no_random ↦ refused no_random_id
          | id_exhausted ↦ refused ids_exhausted
          | unique i ↦ create e r rows i
        ]))
with_id-Told e r j rows no_random t = t
with_id-Told e r j rows id_exhausted t = t
with_id-Told e r j rows (unique i) t = made-Told e r i j rows t

pub start-Told :
    (e : World) (r : Request) (j : Text) (rows : List Delegation)
    → Told j rows
    → Told j (table rows (start e r rows))
unfolding start admit
start-Told e r j rows t =
    elim (refusal e r rows)
      as (λ o. Told j (
        table rows (elim o as (λ x. Started) [ none ↦ admit e r rows | some err ↦ refused err ]))) [
          | some err ↦ t
          | none ↦
              with_id-Told e r j rows
                (generate_unique (λ i. e.reads && any (has_id i) rows) e.draws 0 20) t
        ]
