-- ===== src/Tests/SessionManager.antt =====
-- The session manager with two sessions and a cap of one.
use workhorse_agent.Prelude.{◌≤◌, true, false, none, List, [], ◌∷◌, arith, length}
use workhorse_agent.Session.Rows.{Store}
use workhorse_agent.Session.Manager.{Session}
use workhorse_agent.Session.Manager.Cap.{Call, begins, publishes, deletes, run, empty, run_capped}

abbrev first : Session
first = record { id = 1 ∷ []; workdir = 9 ∷ []; model = []; ephemeral = false }

abbrev no_rows : Store
no_rows = record { rows = []; answers = true }

-- A second session is refused while the first one lives, and let in after its deletion.
abbrev calls : List Call
calls =
    begins (1 ∷ [])
    ∷ begins (2 ∷ [])
    ∷ publishes first
    ∷ deletes 5 (1 ∷ []) none
    ∷ begins (3 ∷ [])
    ∷ []

run_capped_example : length (run 1 empty calls).sessions ≤ 1
run_capped_example = run_capped 1 calls (omega arith)
