-- ===== src/Approval.antt =====
-- internal/extagent/approval/manager.go: the pending adapter approvals. The mutex makes each method
-- and each timer's callback one step. What the collaborators and the disk are told is a log, oldest
-- first; `emitter`, `injector`, `dedup` and `marker` say which of the optional ones are wired.
pub mod Named
pub mod Resolution
pub mod Branches
pub mod Once
use workhorse_agent.Prelude.{
  ℕ, zero, suc, ◌+◌, Bool, true, false, List, [], ◌∷◌, ◌++◌, Option, none, some, Text, is_empty,
  if◌then◌else◌, Dict, lookup, insert, delete,
}

pub data Decision : Type 0 where
  approve reject edit : Decision
  unknown : Text → Decision

pub record PendingApproval : Type 0 where
  pub id : Text
  pub session_id : Text
  pub agent_name : Text
  pub draft_path : Text
  pub draft_yaml : Text
  pub adapter_smoke_pass : Bool
  pub expires_at : ℕ

pub data Status : Type 0 where
  status_approved status_rejected status_expired : Status

pub data Reason : Type 0 where
  publish_failed rejected expired : Reason

-- `write_broken`: a write that failed, after which the file may hold any part of the new text.
pub data Effect : Type 0 where
  emit_request : Text → Effect
  emit_resolved : Text → Status → Text → Effect
  inject : Text → Text → Text → Bool → Effect
  mark_approved clear_dedup : Text → Text → Effect
  mark_unavailable : Text → Text → Reason → Effect
  remove_file : Text → Effect
  write_file : Text → Text → Effect
  write_broken : Text → Effect

-- `publisher` and `validator` are what those collaborators answer: a path or an error, and whether
-- the edit is accepted. `timers` holds the deadline of each running timer.
pub record Manager : Type 0 where
  pub pending : Dict PendingApproval
  pub timers : Dict ℕ
  pub timeout : ℕ
  pub emitter : Bool
  pub injector : Bool
  pub dedup : Bool
  pub marker : Bool
  pub publisher : Option (Text → Option Text)
  pub validator : Option (Text → Text → Bool)
  pub log : List Effect

pub data DecideError : Type 0 where
  not_found publish_error empty_edit edit_rejected write_error unknown_decision : DecideError

-- New, of which this is the fallback for the timeout, in seconds.
unfoldable pub effective_timeout : ℕ → ℕ
effective_timeout t = elim t [ zero ↦ 300 | suc n ↦ suc n ]

unfoldable pub note : Bool → Effect → Manager → Manager
note wired e m = if wired then record m { log = m.log ++ e ∷ [] } else m

unfoldable pub remove_locked : Text → Manager → Manager
remove_locked id m = record m { pending = delete id m.pending; timers = delete id m.timers }

-- Register, with `fresh` the ULID for an approval that has no id.
unfoldable pub register : ℕ → Text → PendingApproval → Manager → Text × Manager
register now fresh p m =
    let id = if is_empty p.id then fresh else p.id in
    (
      id,
      note m.emitter (emit_request id) (record m {
        pending = insert id (record p { id = id; expires_at = now + m.timeout }) m.pending;
        timers = insert id (now + m.timeout) m.timers;
      }),
    )

unfoldable pub get : Text → Manager → Option PendingApproval
get id m = lookup id m.pending

-- The end of an approval that goes live, its effects in the order of the code.
unfoldable pub go_live : Text → PendingApproval → Text → Manager → Manager
go_live id p published m = remove_locked id (
    note m.emitter (emit_resolved p.id status_approved published) (
      note m.dedup (clear_dedup p.session_id p.agent_name) (
        note m.marker (mark_approved p.session_id p.agent_name)
          (note m.injector (inject p.session_id p.agent_name published p.adapter_smoke_pass) m))))

-- The end of one that does not.
unfoldable pub turn_down : Text → PendingApproval → Reason → Status → Manager → Manager
turn_down id p reason status m = remove_locked id (
    note m.emitter (emit_resolved p.id status [])
      (note m.dedup (mark_unavailable p.session_id p.agent_name reason) m))

-- publishLocked
unfoldable pub publish_locked : PendingApproval → Manager → Option Text
publish_locked p m = elim m.publisher [
  | none ↦ some p.draft_path
  | some publish ↦ publish p.draft_path
]

unfoldable pub finish_approve :
    Text → PendingApproval → Option Text → Manager → Option DecideError × Manager
finish_approve id p none m = (some publish_error, turn_down id p publish_failed status_rejected m)
finish_approve id p (some published) m = (none, go_live id p published m)

abbrev pub edit_accepted : PendingApproval → Text → Manager → Bool
edit_accepted p yaml m = elim m.validator [ none ↦ true | some accepts ↦ accepts p.agent_name yaml ]

-- The draft in memory is replaced first; `writes` says whether the write to disk works.
unfoldable pub finish_edit :
    Bool → Text → PendingApproval → Text → Manager → Option DecideError × Manager
finish_edit writes id p yaml m =
    let m' = record m { pending = insert id (record p { draft_yaml = yaml }) m.pending } in
    if writes
    then (none, note true (write_file p.draft_path yaml) m')
    else (some write_error, note true (write_broken p.draft_path) m')

unfoldable pub decide_pending :
    Bool → Text → PendingApproval → Decision → Text → Manager → Option DecideError × Manager
unfolding finish_approve finish_edit publish_locked
decide_pending writes id p approve yaml m = finish_approve id p (publish_locked p m) m
decide_pending writes id p reject yaml m =
    (none, turn_down id p rejected status_rejected (note true (remove_file p.draft_path) m))
decide_pending writes id p edit yaml m =
    if is_empty yaml
    then (some empty_edit, m)
    else if edit_accepted p yaml m
    then finish_edit writes id p yaml m
    else (some edit_rejected, m)
decide_pending writes id p (unknown d) yaml m = (some unknown_decision, m)

unfoldable pub decide_found :
    Bool → Text → Option PendingApproval → Decision → Text → Manager → Option DecideError × Manager
unfolding decide_pending
decide_found writes id none d yaml m = (some not_found, m)
decide_found writes id (some p) d yaml m = decide_pending writes id p d yaml m

unfoldable pub decide : Bool → Text → Decision → Text → Manager → Option DecideError × Manager
unfolding decide_found
decide writes id d yaml m = decide_found writes id (lookup id m.pending) d yaml m

unfoldable pub expire_found : Text → Option PendingApproval → Manager → Manager
expire_found id none m = m
expire_found id (some p) m =
    turn_down id p expired status_expired (note true (remove_file p.draft_path) m)

-- The timer's callback.
unfoldable pub expire : Text → Manager → Manager
unfolding expire_found
expire id m = expire_found id (lookup id m.pending) m

-- Cancel
unfoldable pub remove_all : Dict PendingApproval → Manager → Manager
remove_all [] m = m
remove_all ((id, p) ∷ ps) m = remove_all ps (remove_locked id m)

unfoldable pub cancel : Manager → Manager
unfolding remove_all
cancel m = remove_all m.pending m
