-- ===== src/Approval/Resolution.antt =====
-- No approval is resolved twice, whatever the order of decisions and expiries.
use workhorse_agent.Prelude.{
  ℕ, ◌+◌, ◌≤◌, ◌≡◌, Bool, true, List, [], ◌∷◌, ◌++◌, Option, none, some, Text, text_eq, text_eq_iff,
  lookup, insert, arith, if◌then◌else◌, lookup-insert, lookup-delete, suc, Option-cases, inl, inr,
}
use workhorse_agent.Approval.{
  Manager, PendingApproval, Effect, emit_request, emit_resolved, inject, mark_approved, clear_dedup,
  mark_unavailable, remove_file, write_file, write_broken, Decision, approve, reject, edit, unknown,
  Status, status_approved, Reason, publish_failed, rejected, status_rejected, note, remove_locked,
  go_live, turn_down, finish_approve, finish_edit, publish_locked, decide_pending,
}

-- How many resolutions of an id the clients have seen.
unfoldable pub resolutions : Text → List Effect → ℕ
resolutions k [] = 0
resolutions k (emit_resolved id st path ∷ es) =
    let rest = resolutions k es in if text_eq id k then suc rest else rest
resolutions k (_ ∷ es) = resolutions k es

resolutions-snoc :
    (k : Text) (es : List Effect) (e : Effect)
    → resolutions k (es ++ e ∷ []) ≡ resolutions k es + resolutions k (e ∷ [])
unfolding resolutions
resolutions-snoc k [] (emit_resolved id st path) = ground arith
resolutions-snoc k [] (emit_request id) = ground arith
resolutions-snoc k [] e = ground arith
resolutions-snoc k (emit_resolved id st path ∷ es) e = ground (arith, resolutions-snoc k es e)
resolutions-snoc k (emit_request id ∷ es) e = ground (arith, resolutions-snoc k es e)
resolutions-snoc k (_ ∷ es) e = ground (arith, resolutions-snoc k es e)

abbrev pub flag : Option PendingApproval → ℕ
flag none = 0
flag (some p) = 1

module _ (k : Text) where
  -- The resolutions of `k` so far, with the one that is still due.
  abbrev pub due : Manager → ℕ
  due m = resolutions k m.log + flag (lookup k m.pending)

  pub note-resolutions :
      (w : Bool) (e : Effect) (m : Manager)
      → resolutions k (note w e m).log ≤ resolutions k m.log + resolutions k (e ∷ [])
  unfolding note
  note-resolutions w e m = ground (arith, resolutions-snoc k m.log e)

  pub note-pending : (w : Bool) (e : Effect) (m : Manager) → (note w e m).pending ≡ m.pending
  unfolding note
  note-pending w e m = ground arith

  pub remove_locked-due :
      (id : Text) (m : Manager)
      → due (remove_locked id m)
        ≡ resolutions k m.log + (if text_eq id k then 0 else flag (lookup k m.pending))
  unfolding remove_locked
  remove_locked-due id m = ground (arith, lookup-delete id k m.pending)

  turn_down-due :
      (id : Text) (p : PendingApproval) (r : Reason) (s : Status) (m : Manager)
      → p.id ≡ id
      → lookup id m.pending ≡ some p
      → due (turn_down id p r s m) ≤ due m
  unfolding turn_down resolutions
  turn_down-due id p r s m e h =
      let marked = note m.dedup (mark_unavailable p.session_id p.agent_name r) m in
      let told = note m.emitter (emit_resolved p.id s []) marked in
      ground (
        arith,
        remove_locked-due id told,
        note-pending m.emitter (emit_resolved p.id s []) marked,
        note-pending m.dedup (mark_unavailable p.session_id p.agent_name r) m,
        note-resolutions m.emitter (emit_resolved p.id s []) marked,
        note-resolutions m.dedup (mark_unavailable p.session_id p.agent_name r) m,
        text_eq_iff id k,
      )

  go_live-due :
      (id : Text) (p : PendingApproval) (path : Text) (m : Manager)
      → p.id ≡ id
      → lookup id m.pending ≡ some p
      → due (go_live id p path m) ≤ due m
  unfolding go_live resolutions
  go_live-due id p path m e h =
      let e₁ = inject p.session_id p.agent_name path p.adapter_smoke_pass in
      let e₂ = mark_approved p.session_id p.agent_name in
      let e₃ = clear_dedup p.session_id p.agent_name in
      let e₄ = emit_resolved p.id status_approved path in
      let m₁ = note m.injector e₁ m in
      let m₂ = note m.marker e₂ m₁ in
      let m₃ = note m.dedup e₃ m₂ in
      ground (
        arith,
        remove_locked-due id (note m.emitter e₄ m₃),
        note-pending m.injector e₁ m,
        note-pending m.marker e₂ m₁,
        note-pending m.dedup e₃ m₂,
        note-pending m.emitter e₄ m₃,
        note-resolutions m.injector e₁ m,
        note-resolutions m.marker e₂ m₁,
        note-resolutions m.dedup e₃ m₂,
        note-resolutions m.emitter e₄ m₃,
        text_eq_iff id k,
      )

  finish_edit-due :
      (writes : Bool) (id : Text) (p : PendingApproval) (yaml : Text) (m : Manager)
      → lookup id m.pending ≡ some p
      → due (finish_edit writes id p yaml m).1 ≤ due m
  unfolding finish_edit resolutions
  finish_edit-due writes id p yaml m h =
      let p' = record p { draft_yaml = yaml } in
      let m' = record m { pending = insert id p' m.pending } in
      ground (
        arith,
        note-pending true (write_file p.draft_path yaml) m',
        note-resolutions true (write_file p.draft_path yaml) m',
        note-pending true (write_broken p.draft_path) m',
        note-resolutions true (write_broken p.draft_path) m',
        lookup-insert id k p' m.pending,
        text_eq_iff id k,
      )

  pub after_remove-due :
      (id : Text) (p : PendingApproval) (r : Reason) (s : Status) (m : Manager)
      → p.id ≡ id
      → lookup id m.pending ≡ some p
      → due (turn_down id p r s (note true (remove_file p.draft_path) m)) ≤ due m
  unfolding resolutions
  after_remove-due id p r s m e h = ground (
    arith,
    turn_down-due id p r s (note true (remove_file p.draft_path) m),
    note-pending true (remove_file p.draft_path) m,
    note-resolutions true (remove_file p.draft_path) m,
  )

  pub decide_pending-due :
      (writes : Bool) (id : Text) (p : PendingApproval) (d : Decision) (yaml : Text) (m : Manager)
      → p.id ≡ id
      → lookup id m.pending ≡ some p
      → due (decide_pending writes id p d yaml m).1 ≤ due m
  unfolding decide_pending finish_approve
  decide_pending-due writes id p approve yaml m e h = elim (Option-cases (publish_locked p m)) [
    | inl n ↦
        rw (n, decide_pending, finish_approve)
          (turn_down-due id p publish_failed status_rejected m e h)
    | inr (path, n) ↦ rw (n, decide_pending, finish_approve) (go_live-due id p path m e h)
  ]
  decide_pending-due writes id p reject yaml m e h =
      after_remove-due id p rejected status_rejected m e h
  decide_pending-due writes id p edit yaml m e h =
      ground (arith, finish_edit-due writes id p yaml m h)
  decide_pending-due writes id p (unknown d) yaml m e h = omega arith
