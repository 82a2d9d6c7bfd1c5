-- ===== src/Delegation/Rows.antt =====
-- The delegations table of internal/store/sqlite/crud.go, oldest insertion first. `now` is the clock
-- of the statement; what the database refuses is the callers' business. Instants are microseconds.
use workhorse_agent.Prelude.{
  ℕ, Bool, true, false, ◌&&◌, not, List, [], ◌∷◌, ◌++◌, Option, none, some, Text, text_eq, codes,
  length, any, leb, keep_if, is_some, if◌then◌else◌,
}

pub data DelegationStatus : Type 0 where
  running complete failed : DelegationStatus

pub record Delegation : Type 0 where
  pub id : Text
  pub session_id : Text
  pub description : Text
  pub prompt : Text
  pub workdir : Text
  pub status : DelegationStatus
  pub title : Text
  pub summary : Text
  pub result : Text
  pub error : Text
  pub started_at : ℕ
  pub completed_at : Option ℕ
  pub notified_at : Option ℕ

abbrev pub is_running : Delegation → Bool
is_running d = elim d.status [ running ↦ true | complete ↦ false | failed ↦ false ]

unfoldable pub has_id : Text → Delegation → Bool
has_id id d = text_eq d.id id

-- The id is the primary key.
unfoldable pub create_delegation : Delegation → List Delegation → Option (List Delegation)
create_delegation d rows = if any (has_id d.id) rows then none else some (rows ++ d ∷ [])

unfoldable pub get_delegation : Text → List Delegation → Option Delegation
get_delegation id [] = none
get_delegation id (d ∷ ds) = if has_id id d then some d else get_delegation id ds

unfoldable pub count_running : List Delegation → ℕ
unfolding keep_if
count_running rows = length (keep_if is_running rows)

-- UPDATE … WHERE id = ?
unfoldable pub update : Text → (Delegation → Delegation) → List Delegation → List Delegation
update id f [] = []
update id f (d ∷ ds) = (if has_id id d then f d else d) ∷ update id f ds

-- The rows after, or ErrNotFound.
unfoldable pub update_found :
    Text → (Delegation → Delegation) → List Delegation → Option (List Delegation)
update_found id f rows = if any (has_id id) rows then some (update id f rows) else none

unfoldable pub completed : ℕ → Text → Text → Text → Delegation → Delegation
completed now title summary result d = record d {
  status = complete;
  title = title;
  summary = summary;
  result = result;
  completed_at = some now;
}

unfoldable pub complete_delegation :
    ℕ → Text → Text → Text → Text → List Delegation → Option (List Delegation)
complete_delegation now id title summary result rows =
    update_found id (completed now title summary result) rows

unfoldable pub ended_badly : ℕ → Text → Text → Delegation → Delegation
ended_badly now error result d = record d {
  status = failed;
  error = error;
  result = result;
  completed_at = some now;
}

unfoldable pub fail_delegation : ℕ → Text → Text → Text → List Delegation → Option (List Delegation)
fail_delegation now id error result rows = update_found id (ended_badly now error result) rows

unfoldable pub pending_for : Text → Delegation → Bool
pending_for session d =
    text_eq d.session_id session && not (is_running d) && not (is_some d.notified_at)

-- ORDER BY started_at ASC
unfoldable pub insert_by_start : Delegation → List Delegation → List Delegation
insert_by_start d [] = d ∷ []
insert_by_start d (e ∷ es) =
    let rest = insert_by_start d es in
    if leb d.started_at e.started_at then d ∷ e ∷ es else e ∷ rest

unfoldable pub by_start : List Delegation → List Delegation
by_start [] = []
by_start (d ∷ ds) = insert_by_start d (by_start ds)

unfoldable pub notified : ℕ → Delegation → Delegation
notified now d = record d { notified_at = some now }

unfoldable pub mark_notified : ℕ → List Delegation → List Delegation → List Delegation
mark_notified now [] rows = rows
mark_notified now (d ∷ ds) rows = mark_notified now ds (update d.id (notified now) rows)

-- The whole transaction, where it commits.
unfoldable pub claim_pending_notifications :
    Text → ℕ → List Delegation → List Delegation × List Delegation
unfolding keep_if
claim_pending_notifications session now rows =
    let pending = by_start (keep_if (pending_for session) rows) in
    (pending, mark_notified now pending rows)

unfoldable pub reaped : ℕ → Delegation → Delegation
unfolding codes
reaped now d = record d {
  status = failed;
  error = codes "server restarted";
  completed_at = some now;
}

unfoldable pub reap_running_delegations : ℕ → List Delegation → List Delegation
reap_running_delegations now [] = []
reap_running_delegations now (d ∷ ds) =
    (if is_running d then reaped now d else d) ∷ reap_running_delegations now ds
