-- ===== src/Approval/Branches.antt =====
-- What one decision leaves behind.
use workhorse_agent.Prelude.{
  ◌≡◌, refl, ◌⊎◌, ◌++◌, Bool, true, [], ◌∷◌, Option, none, some, Text, lookup, lookup-delete_self,
  delete, Dict, arith, ap, ◌∙◌,
}
use workhorse_agent.Approval.{
  Manager, PendingApproval, Decision, approve, reject, edit, unknown, emit_resolved,
  mark_unavailable, status_rejected, publish_failed, publish_error, not_found, note, remove_locked,
  turn_down, publish_locked, finish_approve, decide_pending, decide_found, decide, get,
}
use workhorse_agent.Approval.Named.{turn_down-pending, go_live-pending}

deleted-gone : (id : Text) (ps qs : Dict PendingApproval) → ps ≡ delete id qs → lookup id ps ≡ none
deleted-gone id ps qs e = ap (lookup id) e ∙ lookup-delete_self id qs

finish_approve-gone :
    (id : Text) (p : PendingApproval) (o : Option Text) (m : Manager)
    → lookup id (finish_approve id p o m).1.pending ≡ none
unfolding finish_approve
finish_approve-gone id p none m = deleted-gone id _ m.pending (turn_down-pending id p _ _ m)
finish_approve-gone id p (some path) m = deleted-gone id _ m.pending (go_live-pending id p path m)

decided-gone :
    (writes : Bool) (id : Text) (o : Option PendingApproval) (d : Decision) (yaml : Text)
    (m : Manager)
    → (d ≡ approve) ⊎ (d ≡ reject)
    → lookup id m.pending ≡ o
    → lookup id (decide_found writes id o d yaml m).1.pending ≡ none
unfolding decide_found decide_pending
decided-gone writes id none d yaml m f h = h
decided-gone writes id (some p) approve yaml m f h = finish_approve-gone id p (publish_locked p m) m
decided-gone writes id (some p) reject yaml m f h =
    deleted-gone id _ _ (turn_down-pending id p _ _ _)
decided-gone writes id (some p) edit yaml m f h = ground arith
decided-gone writes id (some p) (unknown x) yaml m f h = ground arith

-- An approval that was approved or rejected, with success or not, is over: every later decision on
-- its id reports not found and changes nothing.
pub decide_again :
    (writes : Bool) (id : Text) (d e : Decision) (yaml yaml' : Text) (m : Manager)
    → (d ≡ approve) ⊎ (d ≡ reject)
    → decide writes id e yaml' (decide writes id d yaml m).1
      ≡ (some not_found, (decide writes id d yaml m).1)
unfolding decide decide_found
decide_again writes id d e yaml yaml' m f =
    ap (λ o. decide_found writes id o e yaml' (decide writes id d yaml m).1)
      (decided-gone writes id (lookup id m.pending) d yaml m f refl)

-- A publisher that fails leaves nothing live: the call returns its error, the approval is gone,
-- and the log gains the "unavailable" mark and the rejected event and nothing else; in
-- particular no adapter is injected or marked as approved.
pub decide-publish_failed :
    (writes : Bool) (id : Text) (p : PendingApproval) (yaml : Text) (m : Manager)
    (publish : Text → Option Text)
    → lookup id m.pending ≡ some p
    → m.publisher ≡ some publish
    → publish p.draft_path ≡ none
    → m.emitter ≡ true
    → m.dedup ≡ true
    → let r = decide writes id approve yaml m in
      (r.0 ≡ some publish_error)
      × (get id r.1 ≡ none)
      × (r.1.log
          ≡ (m.log ++ mark_unavailable p.session_id p.agent_name publish_failed ∷ [])
            ++ emit_resolved p.id status_rejected [] ∷ [])
unfolding decide get decide_found decide_pending publish_locked finish_approve turn_down note
    remove_locked
decide-publish_failed writes id p yaml m publish h q f e d =
    ground (arith, lookup-delete_self id m.pending)
