-- ===== src/Delegation/Manager/Claims.antt =====
-- The notices of finished delegations: each is claimed, and once.
use workhorse_agent.Prelude.{
  ◌≡◌, refl, sym, ◌∙◌, ℕ, Bool, true, false, not, ◌&&◌, ◌||◌, List, [], ◌∷◌, none, some, Text,
  text_eq, text_eq_iff, keep_if, any, any-keep_if, is_some, arith, if◌then◌else◌, inl, inr,
  Bool-cases,
}
use workhorse_agent.Delegation.Rows.{
  Delegation, is_running, has_id, update, update_found, completed, ended_badly, complete_delegation,
  fail_delegation, notified, mark_notified, claim_pending_notifications, pending_for, by_start,
  insert_by_start,
}
use workhorse_agent.Delegation.Manager.{consume_pending}
use workhorse_agent.Delegation.Manager.Cap.{
  Operation, starts, completes, fails, consumes, reaps, step, run, or_same,
}
-- A row of that id that no claim has stamped.
use workhorse_agent.Delegation.Manager.Told.{
  unnotified, Told, Keeps, update-has, update-unnotified, update-Told, notified-Keeps,
  mark_notified-Told, reap-has, reap-unnotified, start-Told,
}

insert_by_start-any :
    (p : Delegation → Bool) (d : Delegation) (rows : List Delegation)
    → any p (insert_by_start d rows) ≡ (p d || any p rows)
unfolding insert_by_start any
insert_by_start-any p d [] = refl
insert_by_start-any p d (e ∷ es) = ground (arith, insert_by_start-any p d es)

by_start-any : (p : Delegation → Bool) (rows : List Delegation) → any p (by_start rows) ≡ any p rows
unfolding by_start any
by_start-any p [] = refl
by_start-any p (d ∷ ds) = ground (arith, insert_by_start-any p d (by_start ds), by_start-any p ds)

-- The ids that a claim gives are those of its session's pending rows.
claim-any :
    (p : Delegation → Bool) (session : Text) (now : ℕ) (rows : List Delegation)
    → any p (claim_pending_notifications session now rows).0
      ≡ any (λ d. pending_for session d && p d) rows
unfolding claim_pending_notifications
claim-any p session now rows =
    by_start-any p (keep_if (pending_for session) rows) ∙ any-keep_if p (pending_for session) rows

told_unclaimed :
    (session : Text) (j : Text) (rows : List Delegation)
    → unnotified j rows ≡ false
    → any (λ d. pending_for session d && has_id j d) rows ≡ false
unfolding unnotified pending_for any
told_unclaimed session j [] h = refl
told_unclaimed session j (d ∷ ds) h = ground (arith, h, told_unclaimed session j ds)

update_self-unnotified :
    (now : ℕ) (id j : Text) (rows : List Delegation)
    → text_eq id j ≡ true
    → unnotified j (update id (notified now) rows) ≡ false
unfolding update unnotified has_id notified any
update_self-unnotified now id j [] e = refl
update_self-unnotified now id j (d ∷ ds) e = ground (
  arith,
  e,
  update_self-unnotified now id j ds e,
  text_eq_iff d.id id,
  text_eq_iff d.id j,
  text_eq_iff id j,
)

mark_notified-unnotified :
    (now : ℕ) (j : Text) (ds rows : List Delegation)
    → unnotified j rows ≡ false
    → unnotified j (mark_notified now ds rows) ≡ false
unfolding mark_notified
mark_notified-unnotified now j [] rows u = u
mark_notified-unnotified now j (d ∷ ds) rows u =
    mark_notified-unnotified now j ds (update d.id (notified now) rows)
      (update-unnotified d.id j (notified now) rows (notified-Keeps now) u)

mark_notified-tells :
    (now : ℕ) (j : Text) (ds rows : List Delegation)
    → any (has_id j) ds ≡ true
    → unnotified j (mark_notified now ds rows) ≡ false
unfolding mark_notified has_id any
mark_notified-tells now j [] rows h = ground (arith, h)
mark_notified-tells now j (d ∷ ds) rows h = elim (Bool-cases (text_eq d.id j)) [
  | inl e ↦
      mark_notified-unnotified now j ds (update d.id (notified now) rows)
        (update_self-unnotified now d.id j rows e)
  | inr e ↦ mark_notified-tells now j ds (update d.id (notified now) rows) (ground (arith, h, e))
]

mark_notified-has :
    (now : ℕ) (j : Text) (ds rows : List Delegation)
    → any (has_id j) (mark_notified now ds rows) ≡ any (has_id j) rows
unfolding mark_notified
mark_notified-has now j [] rows = refl
mark_notified-has now j (d ∷ ds) rows =
    mark_notified-has now j ds (update d.id (notified now) rows)
    ∙ update-has d.id j (notified now) rows (notified-Keeps now)

any-and :
    (p q : Delegation → Bool) (rows : List Delegation)
    → any (λ d. p d && q d) rows ≡ true
    → any q rows ≡ true
unfolding any
any-and p q [] h = h
any-and p q (d ∷ ds) h = ground (arith, h, any-and p q ds)

-- A claim tells what it gives.
claim-Told :
    (session : Text) (now : ℕ) (j : Text) (rows : List Delegation)
    → any (has_id j) (claim_pending_notifications session now rows).0 ≡ true
    → Told j (claim_pending_notifications session now rows).1
unfolding claim_pending_notifications
claim-Told session now j rows h = (
  mark_notified-has now j (by_start (keep_if (pending_for session) rows)) rows
      ∙ any-and (pending_for session) (has_id j) rows
          (sym (claim-any (has_id j) session now rows) ∙ h),
  mark_notified-tells now j (by_start (keep_if (pending_for session) rows)) rows h,
)

or_same-Told :
    (id j : Text) (f : Delegation → Delegation) (rows : List Delegation)
    → Keeps f
    → Told j rows
    → Told j (or_same rows (update_found id f rows))
unfolding update_found
or_same-Told id j f rows k t =
    elim (any (has_id id) rows)
      as (λ b. Told j (or_same rows (if b then some (update id f rows) else none))) [
        | true ↦ update-Told id j f rows k t
        | false ↦ t
      ]

completed-Keeps :
    (now : ℕ) (title summary result : Text) → Keeps (completed now title summary result)
unfolding completed
completed-Keeps now title summary result d = (refl, λ h. h)

ended_badly-Keeps : (now : ℕ) (error result : Text) → Keeps (ended_badly now error result)
unfolding ended_badly
ended_badly-Keeps now error result d = (refl, λ h. h)

step-Told : (o : Operation) (j : Text) (rows : List Delegation) → Told j rows → Told j (step o rows)
unfolding step complete_delegation fail_delegation consume_pending claim_pending_notifications
step-Told (starts e r) j rows t = start-Told e r j rows t
step-Told (completes now id title summary result) j rows t =
    or_same-Told id j (completed now title summary result) rows
      (completed-Keeps now title summary result) t
step-Told (fails now id error result) j rows t =
    or_same-Told id j (ended_badly now error result) rows (ended_badly-Keeps now error result) t
step-Told (consumes false session now) j rows t = t
step-Told (consumes true session now) j rows t =
    mark_notified-Told now j (by_start (keep_if (pending_for session) rows)) rows t
step-Told (reaps now) j rows (t, u) = (reap-has now j rows ∙ t, reap-unnotified now j rows ∙ u)

run-Told :
    (os : List Operation) (j : Text) (rows : List Delegation) → Told j rows → Told j (run os rows)
unfolding run
run-Told [] j rows t = t
run-Told (o ∷ os) j rows t = run-Told os j (step o rows) (step-Told o j rows t)

-- A delegation that a claim has given is given by no later claim, whatever the manager and the
-- server's restarts do in between, and whichever session claims.
pub claim_once :
    (session session' : Text) (now now' : ℕ) (id : Text) (rows : List Delegation)
    (os : List Operation)
    → any (has_id id) (claim_pending_notifications session now rows).0 ≡ true
    → any
        (has_id id)
        (claim_pending_notifications session' now'
          (run os (claim_pending_notifications session now rows).1)).0
      ≡ false
claim_once session session' now now' id rows os h =
    let after = run os (claim_pending_notifications session now rows).1 in
    claim-any (has_id id) session' now' after
    ∙ told_unclaimed session' id after (run-Told os id _ (claim-Told session now id rows h)).1

finished-pending :
    (session id : Text) (f : Delegation → Delegation) (rows : List Delegation)
    → ((d : Delegation)
        → ((f d).id ≡ d.id)
          × ((f d).session_id ≡ d.session_id)
          × ((f d).notified_at ≡ d.notified_at)
          × (is_running (f d) ≡ false))
    → any (λ d. has_id id d && text_eq d.session_id session && not (is_some d.notified_at)) rows
      ≡ true
    → any (λ d. pending_for session d && has_id id d) (update id f rows) ≡ true
unfolding update pending_for has_id any
finished-pending session id f [] k h = h
finished-pending session id f (d ∷ ds) k h =
    ground (arith, h, finished-pending session id f ds k, (k d).0, (k d).1, (k d).2, (k d).3)

-- A session's delegation that has not been told and completes is given by the session's next claim.
pub complete-claimed :
    (session id title summary result : Text) (now now' : ℕ) (rows rows' : List Delegation)
    → any (λ d. has_id id d && text_eq d.session_id session && not (is_some d.notified_at)) rows
      ≡ true
    → complete_delegation now id title summary result rows ≡ some rows'
    → any (has_id id) (claim_pending_notifications session now' rows').0 ≡ true
unfolding complete_delegation update_found completed
complete-claimed session id title summary result now now' rows rows' h c =
    claim-any (has_id id) session now' rows'
    ∙ ground (
      arith,
      c,
      finished-pending session id (completed now title summary result) rows
          (λ d. (refl, refl, refl, refl)) h,
    )
