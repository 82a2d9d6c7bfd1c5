-- ===== src/Tests/Delegation.antt =====
-- Three running delegations, two more that start at once, and one whose notice is claimed.
use workhorse_agent.Prelude.{
  ◌≡◌, refl, ℕ, ◌≤◌, ◌<◌, true, false, List, [], ◌∷◌, ◌++◌, none, some, Text, text_eq, codes, any,
  keep_if, lookup, arith,
}
use workhorse_agent.Delegation.Rows.{
  Delegation, running, has_id, create_delegation, count_running, update, update_found, completed,
  complete_delegation, claim_pending_notifications,
}
use workhorse_agent.Delegation.Manager.{
  World, Request, started, refused, too_many, refusal, admit, start, create, validate_request,
  child_meta_key, generate_unique, generate, pick, max_concurrent, new_delegation,
}
use workhorse_agent.Delegation.Manager.Cap.{Operation, starts, consumes, reaps, run, run-capped}
use workhorse_agent.Delegation.Manager.Overlap.{overlapping_starts-uncapped}
use workhorse_agent.Delegation.Manager.Claims.{claim_once, complete-claimed}

abbrev row : ℕ → Delegation
row n = record {
  id = n ∷ [];
  session_id = 1 ∷ [];
  description = [];
  prompt = [];
  workdir = [];
  status = running;
  title = [];
  summary = [];
  result = [];
  error = [];
  started_at = n;
  completed_at = none;
  notified_at = none;
}

abbrev three : List Delegation
three = row 1 ∷ row 2 ∷ row 3 ∷ []

-- The i-th id is drawn with i as its first word.
abbrev world : ℕ → World
world first = record {
  trim = λ t. t;
  rune_count = λ t. 1;
  sessions = (1 ∷ [], []) ∷ [];
  reads = true;
  writes = true;
  now = 9;
  draws = λ i. (some first, some 0, some 0);
}

abbrev request : Request
request = record { parent_session_id = 1 ∷ []; workdir = []; description = 5 ∷ []; prompt = 6 ∷ [] }

abbrev id0 : Text
id0 = codes "brisk" ++ codes "-" ++ codes "amber" ++ codes "-" ++ codes "fox"

abbrev id1 : Text
id1 = codes "calm" ++ codes "-" ++ codes "amber" ++ codes "-" ++ codes "fox"

abbrev four : List Delegation
four = three ++ new_delegation (world 0) request id0 ∷ []

first_in : start (world 0) request three ≡ started id0 four
unfolding start refusal validate_request child_meta_key lookup count_running keep_if admit create
    create_delegation has_id generate_unique generate pick any text_eq codes
first_in = refl

second_in :
    start (world 1) request three ≡ started id1 (three ++ new_delegation (world 1) request id1 ∷ [])
unfolding start refusal validate_request child_meta_key lookup count_running keep_if admit create
    create_delegation has_id generate_unique generate pick any text_eq codes
second_in = refl

overlapping_starts-uncapped_example :
    (start (world 1) request four ≡ refused too_many)
    × (refusal (world 1) request three ≡ none)
    × ((both : List Delegation) × (admit (world 1) request four ≡ started id1 both)
        × (max_concurrent < count_running both))
unfolding count_running keep_if text_eq codes
overlapping_starts-uncapped_example =
    overlapping_starts-uncapped (world 0) (world 1) request request three four
      (three ++ new_delegation (world 1) request id1 ∷ []) id0 id1 refl first_in second_in refl

abbrev history : List Operation
history =
    starts (world 0) request ∷ starts (world 1) request ∷ consumes true (1 ∷ []) 7 ∷ reaps 8 ∷ []

run-capped_example : count_running (run history three) ≤ max_concurrent
unfolding count_running keep_if
run-capped_example = run-capped history three (omega arith)

abbrev finished : List Delegation
finished = row 1 ∷ completed 4 [] [] [] (row 2) ∷ row 3 ∷ []

complete-claimed_example :
    any (has_id (2 ∷ [])) (claim_pending_notifications (1 ∷ []) 5 finished).0 ≡ true
unfolding has_id any text_eq complete_delegation update_found update
complete-claimed_example = complete-claimed (1 ∷ []) (2 ∷ []) [] [] [] 4 5 three finished refl refl

claim_once_example :
    any
      (has_id (2 ∷ []))
      (claim_pending_notifications
        (1 ∷ [])
        6
        (run history (claim_pending_notifications (1 ∷ []) 5 finished).1)).0
    ≡ false
unfolding has_id any text_eq complete_delegation update_found update
claim_once_example =
    claim_once (1 ∷ []) (1 ∷ []) 5 6 (2 ∷ []) finished history
      (complete-claimed (1 ∷ []) (2 ∷ []) [] [] [] 4 5 three finished refl refl)
