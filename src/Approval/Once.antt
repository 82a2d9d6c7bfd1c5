-- ===== src/Approval/Once.antt =====
-- Histories of the approval manager.
use workhorse_agent.Prelude.{
  ℕ, ◌+◌, ◌≤◌, ◌≡◌, refl, Bool, List, [], ◌∷◌, Option, none, some, Text, text_eq, Dict, lookup,
  insert, lookup-insert, arith, if◌then◌else◌, is_empty, suc, ap,
}
use workhorse_agent.Approval.{
  Manager, PendingApproval, emit_request, Decision, register, decide, decide_found, expire,
  expire_found, remove_all, remove_locked, cancel, expired, status_expired,
}
use workhorse_agent.Approval.Named.{
  IsNamed, decide_found-IsNamed, expire_found-IsNamed, register-IsNamed, remove_all-IsNamed,
}
use workhorse_agent.Approval.Resolution.{
  resolutions, due, note-resolutions, note-pending, remove_locked-due, decide_pending-due,
  after_remove-due,
}

pub data Call : Type 0 where
  registers : ℕ → Text → PendingApproval → Call
  decides : Bool → Text → Decision → Text → Call
  expires : Text → Call
  cancels : Call

unfoldable pub step : Manager → Call → Manager
unfolding register decide expire cancel
step m (registers now fresh p) = (register now fresh p m).1
step m (decides writes id d yaml) = (decide writes id d yaml m).1
step m (expires id) = expire id m
step m cancels = cancel m

unfoldable pub run : Manager → List Call → Manager
unfolding step
run m [] = m
run m (c ∷ cs) = run (step m c) cs

-- How often an id was registered.
unfoldable pub registrations : Text → List Call → ℕ
registrations k [] = 0
registrations k (registers now fresh p ∷ cs) =
    let rest = registrations k cs in
    if text_eq (if is_empty p.id then fresh else p.id) k then suc rest else rest
registrations k (_ ∷ cs) = registrations k cs

module _ (k : Text) where
  register-due :
      (now : ℕ) (fresh : Text) (p : PendingApproval) (m : Manager)
      → due k (register now fresh p m).1 ≤ due k m + registrations k (registers now fresh p ∷ [])
  unfolding register registrations resolutions
  register-due now fresh p m =
      let id = if is_empty p.id then fresh else p.id in
      let q = record p { id = id; expires_at = now + m.timeout } in
      let m' = record m {
        pending = insert id q m.pending;
        timers = insert id (now + m.timeout) m.timers;
      } in
      ground (
        arith,
        note-resolutions k m.emitter (emit_request id) m',
        note-pending k m.emitter (emit_request id) m',
        lookup-insert id k q m.pending,
      )

  decide_found-due :
      (writes : Bool) (id : Text) (o : Option PendingApproval) (d : Decision) (yaml : Text)
      (m : Manager)
      → lookup id m.pending ≡ o
      → IsNamed m.pending
      → due k (decide_found writes id o d yaml m).1 ≤ due k m
  unfolding decide_found
  decide_found-due writes id none d yaml m h v = omega arith
  decide_found-due writes id (some p) d yaml m h v =
      decide_pending-due k writes id p d yaml m (v id p h) h

  expire_found-due :
      (id : Text) (o : Option PendingApproval) (m : Manager)
      → lookup id m.pending ≡ o
      → IsNamed m.pending
      → due k (expire_found id o m) ≤ due k m
  unfolding expire_found
  expire_found-due id none m h v = omega arith
  expire_found-due id (some p) m h v = after_remove-due k id p expired status_expired m (v id p h) h

  remove_all-due : (ps : Dict PendingApproval) (m : Manager) → due k (remove_all ps m) ≤ due k m
  unfolding remove_all
  remove_all-due [] m = omega arith
  remove_all-due ((id, p) ∷ ps) m =
      ground (arith, remove_all-due ps (remove_locked id m), remove_locked-due k id m)

  step-due :
      (m : Manager) (c : Call)
      → IsNamed m.pending
      → due k (step m c) ≤ due k m + registrations k (c ∷ [])
  unfolding step registrations
  step-due m (registers now fresh p) v = register-due now fresh p m
  step-due m (decides writes id d yaml) v =
      omega (arith, decide_found-due writes id (lookup id m.pending) d yaml m refl v)
  step-due m (expires id) v = omega (arith, expire_found-due id (lookup id m.pending) m refl v)
  step-due m cancels v = omega (arith, remove_all-due m.pending m)

step-IsNamed : (m : Manager) (c : Call) → IsNamed m.pending → IsNamed (step m c).pending
unfolding step
step-IsNamed m (registers now fresh p) v = register-IsNamed now fresh p m v
step-IsNamed m (decides writes id d yaml) v =
    decide_found-IsNamed writes id (lookup id m.pending) d yaml m refl v
step-IsNamed m (expires id) v = expire_found-IsNamed id (lookup id m.pending) m v
step-IsNamed m cancels v = remove_all-IsNamed m.pending m v

registrations-cons :
    (k : Text) (c : Call) (cs : List Call)
    → registrations k (c ∷ cs) ≡ registrations k (c ∷ []) + registrations k cs
unfolding registrations
registrations-cons k (registers now fresh p) cs = ground arith
registrations-cons k (expires id) cs = omega arith
registrations-cons k _ cs = omega arith

run-due :
    (k : Text) (m : Manager) (cs : List Call)
    → IsNamed m.pending
    → due k (run m cs) ≤ due k m + registrations k cs
unfolding run
run-due k m [] v = omega arith
run-due k m (c ∷ cs) v = omega (
  arith,
  registrations-cons k c cs,
  step-due k m c v,
  run-due k (step m c) cs (step-IsNamed m c v),
)

-- A client sees at most one resolution for each registration of an approval, whatever decisions,
-- expiries and shutdowns come in whatever order: a decision that races the timer never resolves
-- an approval a second time.
pub run-resolutions :
    (k : Text) (m : Manager) (cs : List Call)
    → m.pending ≡ []
    → m.log ≡ []
    → resolutions k (run m cs).log ≤ registrations k cs
unfolding resolutions lookup
run-resolutions k m cs p l =
    ground (arith, run-due k m cs (λ j q h. ground (arith, ap (lookup j) p, h)))
