-- ===== src/Approval/Named.antt =====
-- A pending approval stands in the map under its own id.
use workhorse_agent.Prelude.{
  ℕ, ◌≡◌, ◌∙◌, ap, refl, Bool, true, false, [], ◌∷◌, Option, none, some, Text, text_eq_iff, Dict,
  lookup, insert, delete, lookup-insert, lookup-delete, arith, if◌then◌else◌, is_empty,
}
use workhorse_agent.Approval.{
  Manager, PendingApproval, Effect, Decision, approve, reject, edit, unknown, Status, Reason, note,
  register, go_live, turn_down, remove_locked, finish_approve, finish_edit, decide_pending,
  decide_found, expire_found, edit_accepted, remove_all, empty_edit, edit_rejected,
}

abbrev pub IsNamed : Dict PendingApproval → Type 0
IsNamed ps = (j : Text) (p : PendingApproval) → lookup j ps ≡ some p → p.id ≡ j

delete-IsNamed : (id : Text) (ps : Dict PendingApproval) → IsNamed ps → IsNamed (delete id ps)
delete-IsNamed id ps v j p h = ground (arith, v j p, lookup-delete id j ps)

insert-IsNamed :
    (id : Text) (q : PendingApproval) (ps : Dict PendingApproval)
    → q.id ≡ id
    → IsNamed ps
    → IsNamed (insert id q ps)
insert-IsNamed id q ps e v j p h = ground (arith, v j p, lookup-insert id j q ps, text_eq_iff id j)

note-pending : (w : Bool) (e : Effect) (m : Manager) → (note w e m).pending ≡ m.pending
unfolding note
note-pending w e m = ground arith

pub turn_down-pending :
    (id : Text) (p : PendingApproval) (r : Reason) (s : Status) (m : Manager)
    → (turn_down id p r s m).pending ≡ delete id m.pending
unfolding turn_down remove_locked
turn_down-pending id p r s m = ap (delete id) (note-pending _ _ _ ∙ note-pending _ _ m)

pub go_live-pending :
    (id : Text) (p : PendingApproval) (path : Text) (m : Manager)
    → (go_live id p path m).pending ≡ delete id m.pending
unfolding go_live remove_locked
go_live-pending id p path m =
    ap (delete id)
      (note-pending _ _ _ ∙ note-pending _ _ _ ∙ note-pending _ _ _ ∙ note-pending _ _ m)

turn_down-IsNamed :
    (id : Text) (p : PendingApproval) (r : Reason) (s : Status) (m : Manager)
    → IsNamed m.pending
    → IsNamed (turn_down id p r s m).pending
turn_down-IsNamed id p r s m v = rw (turn_down-pending id p r s m) (delete-IsNamed id m.pending v)

noted_IsNamed :
    (w : Bool) (e : Effect) (m : Manager) → IsNamed m.pending → IsNamed (note w e m).pending
noted_IsNamed w e m v = rw (note-pending w e m) v

finish_edit-IsNamed :
    (writes : Bool) (id : Text) (p : PendingApproval) (yaml : Text) (m : Manager)
    → p.id ≡ id
    → IsNamed m.pending
    → IsNamed (finish_edit writes id p yaml m).1.pending
unfolding finish_edit
finish_edit-IsNamed true id p yaml m e v =
    noted_IsNamed true _ _ (insert-IsNamed id (record p { draft_yaml = yaml }) m.pending e v)
finish_edit-IsNamed false id p yaml m e v =
    noted_IsNamed true _ _ (insert-IsNamed id (record p { draft_yaml = yaml }) m.pending e v)

finish_approve-IsNamed :
    (id : Text) (p : PendingApproval) (o : Option Text) (m : Manager)
    → IsNamed m.pending
    → IsNamed (finish_approve id p o m).1.pending
unfolding finish_approve
finish_approve-IsNamed id p none m v = turn_down-IsNamed id p _ _ m v
finish_approve-IsNamed id p (some path) m v =
    rw (go_live-pending id p path m) (delete-IsNamed id m.pending v)

decide_pending-IsNamed :
    (writes : Bool) (id : Text) (p : PendingApproval) (d : Decision) (yaml : Text) (m : Manager)
    → p.id ≡ id
    → IsNamed m.pending
    → IsNamed (decide_pending writes id p d yaml m).1.pending
unfolding decide_pending
decide_pending-IsNamed writes id p approve yaml m e v = finish_approve-IsNamed id p _ m v
decide_pending-IsNamed writes id p reject yaml m e v =
    turn_down-IsNamed id p _ _ _ (noted_IsNamed true _ m v)
decide_pending-IsNamed writes id p edit yaml m e v = go (is_empty yaml) (edit_accepted p yaml m)
  where
    go :
        (a b : Bool)
        → IsNamed
            (if a
              then (some empty_edit, m)
              else if b
              then finish_edit writes id p yaml m
              else (some edit_rejected, m)).1.pending
    go true b = v
    go false true = finish_edit-IsNamed writes id p yaml m e v
    go false false = v
decide_pending-IsNamed writes id p (unknown d) yaml m e v = v

pub decide_found-IsNamed :
    (writes : Bool) (id : Text) (o : Option PendingApproval) (d : Decision) (yaml : Text)
    (m : Manager)
    → lookup id m.pending ≡ o
    → IsNamed m.pending
    → IsNamed (decide_found writes id o d yaml m).1.pending
unfolding decide_found
decide_found-IsNamed writes id none d yaml m h v = v
decide_found-IsNamed writes id (some p) d yaml m h v =
    decide_pending-IsNamed writes id p d yaml m (v id p h) v

pub expire_found-IsNamed :
    (id : Text) (o : Option PendingApproval) (m : Manager)
    → IsNamed m.pending
    → IsNamed (expire_found id o m).pending
unfolding expire_found
expire_found-IsNamed id none m v = v
expire_found-IsNamed id (some p) m v = turn_down-IsNamed id p _ _ _ (noted_IsNamed true _ m v)

pub register-IsNamed :
    (now : ℕ) (fresh : Text) (p : PendingApproval) (m : Manager)
    → IsNamed m.pending
    → IsNamed (register now fresh p m).1.pending
unfolding register
register-IsNamed now fresh p m v = noted_IsNamed m.emitter _ _ (insert-IsNamed _ _ m.pending refl v)

pub remove_all-IsNamed :
    (ps : Dict PendingApproval) (m : Manager)
    → IsNamed m.pending
    → IsNamed (remove_all ps m).pending
unfolding remove_all remove_locked
remove_all-IsNamed [] m v = v
remove_all-IsNamed ((id, p) ∷ ps) m v =
    remove_all-IsNamed ps (remove_locked id m) (delete-IsNamed id m.pending v)
