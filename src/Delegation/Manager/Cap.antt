-- ===== src/Delegation/Manager/Cap.antt =====
-- The number of running delegations, over any history of the manager's operations.
use workhorse_agent.Prelude.{
  ◌≡◌, ◌⊎◌, refl, ℕ, suc, ◌≤◌, ◌<◌, Bool, true, false, ◌&&◌, List, [], ◌∷◌, Option, none, some,
  Text, keep_if, keep_if-append, length-append, any, arith, inl, inr, Bool-cases, Option-cases,
}
use workhorse_agent.Delegation.Rows.{
  Delegation, is_running, has_id, create_delegation, count_running, update, update_found, completed,
  ended_badly, complete_delegation, fail_delegation, notified, mark_notified,
  claim_pending_notifications, reaped, reap_running_delegations, pending_for, by_start,
}
use workhorse_agent.Delegation.Manager.{
  World, Request, StartError, Started, started, refused, refusal, admit, create, start,
  consume_pending, max_concurrent, generate_unique, new_delegation, no_random_id, ids_exhausted,
  Unique, unique, no_random, id_exhausted,
}

-- The operations that change the table; a child that ends completes or fails its row.
pub data Operation : Type 0 where
  starts : World → Request → Operation
  completes : (now : ℕ) → (id title summary result : Text) → Operation
  fails : (now : ℕ) → (id error result : Text) → Operation
  consumes : (answers : Bool) → (session : Text) → (now : ℕ) → Operation
  reaps : (now : ℕ) → Operation

abbrev pub or_same : List Delegation → Option (List Delegation) → List Delegation
or_same rows none = rows
or_same rows (some rows') = rows'

abbrev pub table : List Delegation → Started → List Delegation
table rows (started id rows') = rows'
table rows (refused e) = rows

unfoldable pub step : Operation → List Delegation → List Delegation
step (starts e r) rows = table rows (start e r rows)
step (completes now id title summary result) rows =
    or_same rows (complete_delegation now id title summary result rows)
step (fails now id error result) rows = or_same rows (fail_delegation now id error result rows)
step (consumes answers session now) rows = (consume_pending answers session now rows).1
step (reaps now) rows = reap_running_delegations now rows

unfoldable pub run : List Operation → List Delegation → List Delegation
run [] rows = rows
run (o ∷ os) rows = run os (step o rows)

-- An update that starts nothing.
abbrev Calms : (Delegation → Delegation) → Type 0
Calms f = (d : Delegation) → is_running (f d) ≡ true → is_running d ≡ true

count_running-update :
    (id : Text) (f : Delegation → Delegation) (rows : List Delegation)
    → Calms f
    → count_running (update id f rows) ≤ count_running rows
unfolding count_running update keep_if
count_running-update id f [] h = omega arith
count_running-update id f (d ∷ ds) h = ground (arith, h d, count_running-update id f ds h)

completed-Calms :
    (now : ℕ) (title summary result : Text) → Calms (completed now title summary result)
unfolding completed
completed-Calms now title summary result d h = ground (arith, h)

ended_badly-Calms : (now : ℕ) (error result : Text) → Calms (ended_badly now error result)
unfolding ended_badly
ended_badly-Calms now error result d h = ground (arith, h)

notified-Calms : (now : ℕ) → Calms (notified now)
unfolding notified
notified-Calms now d h = h

count_running-mark_notified :
    (now : ℕ) (ds rows : List Delegation)
    → count_running (mark_notified now ds rows) ≤ count_running rows
unfolding mark_notified
count_running-mark_notified now [] rows = omega arith
count_running-mark_notified now (d ∷ ds) rows = omega (
  arith,
  count_running-mark_notified now ds (update d.id (notified now) rows),
  count_running-update d.id (notified now) rows (notified-Calms now),
)

count_running-reap :
    (now : ℕ) (rows : List Delegation) → count_running (reap_running_delegations now rows) ≡ 0
unfolding count_running reap_running_delegations reaped keep_if
count_running-reap now [] = refl
count_running-reap now (d ∷ ds) = ground (arith, count_running-reap now ds)

count_running-create :
    (d : Delegation) (rows rows' : List Delegation)
    → is_running d ≡ true
    → create_delegation d rows ≡ some rows'
    → count_running rows' ≡ suc (count_running rows)
unfolding count_running create_delegation keep_if
count_running-create d rows rows' r h = ground (
  arith,
  h,
  r,
  keep_if-append is_running rows (d ∷ []),
  length-append (keep_if is_running rows) (d ∷ []),
)

create-adds :
    (e : World) (r : Request) (rows rows' : List Delegation) (id id' : Text)
    → create e r rows id ≡ started id' rows'
    → count_running rows' ≡ suc (count_running rows)
unfolding create
create-adds e r rows rows' id id' h = elim (Bool-cases e.writes) [
  | inr shut ↦ ground (arith, h, shut)
  | inl able ↦ elim (Option-cases (create_delegation (new_delegation e r id) rows)) [
    | inl n ↦ ground (arith, h, able, n)
    | inr (made, q) ↦
        ground (arith, h, able, q, count_running-create (new_delegation e r id) rows made refl q)
  ]
]

with_id-adds :
    (e : World) (r : Request) (rows rows' : List Delegation) (id : Text) (u : Unique)
    → elim u as (λ x. Started) [
      | no_random ↦ refused no_random_id
      | id_exhausted ↦ refused ids_exhausted
      | unique i ↦ create e r rows i
    ]
      ≡ started id rows'
    → count_running rows' ≡ suc (count_running rows)
with_id-adds e r rows rows' id no_random h = ground (arith, h)
with_id-adds e r rows rows' id id_exhausted h = ground (arith, h)
with_id-adds e r rows rows' id (unique i) h = create-adds e r rows rows' i id h

pub admit-adds :
    (e : World) (r : Request) (rows rows' : List Delegation) (id : Text)
    → admit e r rows ≡ started id rows'
    → count_running rows' ≡ suc (count_running rows)
unfolding admit
admit-adds e r rows rows' id h =
    with_id-adds e r rows rows' id
      (generate_unique (λ i. e.reads && any (has_id i) rows) e.draws 0 20) h

refusal-room :
    (e : World) (r : Request) (rows : List Delegation)
    → refusal e r rows ≡ none
    → count_running rows < max_concurrent
unfolding refusal
refusal-room e r rows h = ground (arith, h)

pub Started-cases :
    (x : Started)
    → ((e : StartError) × (x ≡ refused e))
      ⊎ ((id : Text) × (rows : List Delegation) × (x ≡ started id rows))
Started-cases (started id rows) = inr (id, rows, refl)
Started-cases (refused e) = inl (e, refl)

start-capped :
    (e : World) (r : Request) (rows : List Delegation)
    → count_running rows ≤ max_concurrent
    → count_running (table rows (start e r rows)) ≤ max_concurrent
unfolding start
start-capped e r rows h = elim (Option-cases (refusal e r rows)) [
  | inr (err, q) ↦ ground (arith, h, q)
  | inl n ↦ elim (Started-cases (admit e r rows)) [
    | inl (err, q) ↦ ground (arith, h, n, q)
    | inr (id, rows', q) ↦
        ground (arith, n, q, refusal-room e r rows n, admit-adds e r rows rows' id q)
  ]
]

or_same-capped :
    (id : Text) (f : Delegation → Delegation) (rows : List Delegation)
    → Calms f
    → count_running (or_same rows (update_found id f rows)) ≤ count_running rows
unfolding update_found
or_same-capped id f rows h = ground (arith, count_running-update id f rows h)

step-capped :
    (o : Operation) (rows : List Delegation)
    → count_running rows ≤ max_concurrent
    → count_running (step o rows) ≤ max_concurrent
unfolding step complete_delegation fail_delegation consume_pending claim_pending_notifications
step-capped (starts e r) rows h = start-capped e r rows h
step-capped (completes now id title summary result) rows h = omega (
  arith,
  h,
  or_same-capped id (completed now title summary result) rows
      (completed-Calms now title summary result),
)
step-capped (fails now id error result) rows h = omega (
  arith,
  h,
  or_same-capped id (ended_badly now error result) rows (ended_badly-Calms now error result),
)
step-capped (consumes false session now) rows h = h
step-capped (consumes true session now) rows h =
    omega (
      arith,
      h,
      count_running-mark_notified now (by_start (keep_if (pending_for session) rows)) rows,
    )
step-capped (reaps now) rows h = omega (arith, count_running-reap now rows)

-- Over any history of whole operations, from a table within the cap, at most MaxConcurrent
-- delegations run at once.
pub run-capped :
    (os : List Operation) (rows : List Delegation)
    → count_running rows ≤ max_concurrent
    → count_running (run os rows) ≤ max_concurrent
unfolding run
run-capped [] rows h = h
run-capped (o ∷ os) rows h = run-capped os (step o rows) (step-capped o rows h)
