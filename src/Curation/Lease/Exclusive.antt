-- ===== src/Curation/Lease/Exclusive.antt =====
-- Many processes over one row: at most one of them holds the lease at a time.
use workhorse_agent.Prelude.{
  ℕ, ◌+◌, ◌≤◌, ◌<◌, ◌≡◌, ◌≢◌, ◌⊎◌, Bool, true, false, Option, none, some, List, [], ◌∷◌, Text,
  text_eq, text_eq_iff, if◌then◌else◌, arith,
}
use workhorse_agent.Curation.Lease.{Row, Lease, Answer, held, lost, failed, acquire, renew, release}

-- A call by the process with token `who`, `wait` microseconds after the one before.
pub data Call : Type 0 where
  acquires renews : ℕ → Call
  releases : Call

pub record Event : Type 0 where
  pub who : Text
  pub wait : ℕ
  pub answers : Bool
  pub call : Call

-- The row, the clock, every process's mutex, and until when each process may curate: as its last
-- successful Acquire or Renew granted, and not at all after a Renew or Acquire that failed to get
-- it or after a Release.
pub record World : Type 0 where
  pub row : Row
  pub clock : ℕ
  pub locked : Text → Bool
  pub granted : Text → Option ℕ

abbrev pub update {ℓ} : {A : Type ℓ} → (Text → A) → Text → A → Text → A
update f k v j = if text_eq k j then v else f j

-- The new right of a process after a call.
unfoldable pub grant : Answer → ℕ → Option ℕ
grant held t = some t
grant lost t = none
grant failed t = none

abbrev lease_of : World → Text → Lease
lease_of w who = record { holder = who; proc_mu = w.locked who }

-- Renew and Release are called by the process that holds its mutex, as the worker does.
unfoldable pub step_call : World → Text → Bool → ℕ → Call → World
unfolding acquire renew release grant
step_call w who answers now (acquires ttl) =
    let (a, l, row) = acquire answers now ttl (lease_of w who) w.row in
    if w.locked who then record w { clock = now } else record {
      row = row;
      clock = now;
      locked = update w.locked who l.proc_mu;
      granted = update w.granted who (grant a (now + ttl));
    }
step_call w who answers now (renews ttl) =
    let (a, row) = renew answers now ttl (lease_of w who) w.row in
    if w.locked who
    then record w { row = row; clock = now; granted = update w.granted who (grant a (now + ttl)) }
    else record w { clock = now }
step_call w who answers now releases =
    let (a, l, row) = release answers (lease_of w who) w.row in
    if w.locked who
    then record {
      row = row;
      clock = now;
      locked = update w.locked who l.proc_mu;
      granted = update w.granted who none;
    }
    else record w { clock = now }

unfoldable pub step : World → Event → World
unfolding step_call
step w e = step_call w e.who e.answers (w.clock + e.wait) e.call

unfoldable pub run : World → List Event → World
unfolding step
run w [] = w
run w (e ∷ es) = run (step w e) es

-- A right that has not run out is the row's.
abbrev pub Inv : World → Type 0
Inv w =
    (h : Text) (t : ℕ)
    → w.granted h ≡ some t
    → (t < w.clock) ⊎ ((w.row.holder ≡ h) × (w.row.expires_at ≡ t))

step_call-Inv :
    (w : World) (who : Text) (answers : Bool) (now : ℕ) (c : Call)
    → w.clock ≤ now
    → Inv w
    → Inv (step_call w who answers now c)
unfolding step_call
step_call-Inv w who answers now (acquires ttl) later inv h t e =
    ground (arith, inv h t, text_eq_iff who h, text_eq_iff w.row.holder who)
step_call-Inv w who answers now (renews ttl) later inv h t e =
    ground (arith, inv h t, text_eq_iff who h, text_eq_iff w.row.holder who)
step_call-Inv w who answers now releases later inv h t e =
    ground (arith, inv h t, text_eq_iff who h, text_eq_iff w.row.holder who)

run-Inv : (w : World) (es : List Event) → Inv w → Inv (run w es)
unfolding run step
run-Inv w [] inv = inv
run-Inv w (e ∷ es) inv =
    run-Inv (step w e) es
      (step_call-Inv w e.who e.answers (w.clock + e.wait) e.call (omega arith) inv)

-- Nobody holds the lease yet.
abbrev pub fresh : Row → ℕ → World
fresh row clock = record { row = row; clock = clock; locked = λ h. false; granted = λ h. none }

fresh-Inv : (row : Row) (clock : ℕ) → Inv (fresh row clock)
fresh-Inv row clock h t e = cc

-- However the processes' calls interleave, with any failures of the database, two processes whose
-- leases have not run out are the same process, provided that their clocks agree.
pub lease_exclusive :
    (row : Row) (clock : ℕ) (es : List Event) (h k : Text) (t u : ℕ)
    → (run (fresh row clock) es).granted h ≡ some t
    → (run (fresh row clock) es).granted k ≡ some u
    → (run (fresh row clock) es).clock ≤ t
    → (run (fresh row clock) es).clock ≤ u
    → h ≡ k
lease_exclusive row clock es h k t u gh gk lt lu = ground (
  arith,
  run-Inv (fresh row clock) es (fresh-Inv row clock) h t gh,
  run-Inv (fresh row clock) es (fresh-Inv row clock) k u gk,
)

-- A crashed holder blocks nobody for longer than its lease: a process that does not hold it
-- already gets the lease as soon as the row has expired and the database answers, whoever the
-- row names; the row is then its own until `now + ttl`, and another process that asks by then is
-- turned away.
pub acquire_expired :
    (row : Row) (holder other : Text) (now ttl later ttl' : ℕ)
    → row.expires_at < now
    → later ≤ now + ttl
    → holder ≢ other
    → let r = acquire true now ttl (record { holder = holder; proc_mu = false }) row in
      (r.0 ≡ held)
      × (r.1.proc_mu ≡ true)
      × ((acquire true later ttl' (record { holder = other; proc_mu = false }) r.2).0 ≡ lost)
unfolding acquire
acquire_expired row holder other now ttl later ttl' h l n = ground (arith, text_eq_iff holder other)
