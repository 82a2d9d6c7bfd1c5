-- ===== src/Tests/Approval.antt =====
-- One pending approval.
use workhorse_agent.Prelude.{◌≤◌, refl, true, none, some, List, [], ◌∷◌}
use workhorse_agent.Approval.{PendingApproval, Manager, approve, reject}
use workhorse_agent.Approval.Resolution.{resolutions}
use workhorse_agent.Approval.Once.{
  Call, registers, decides, expires, run, registrations, run-resolutions,
}

abbrev draft : PendingApproval
draft = record {
  id = 1 ∷ [];
  session_id = 2 ∷ [];
  agent_name = 3 ∷ [];
  draft_path = 4 ∷ [];
  draft_yaml = 5 ∷ [];
  adapter_smoke_pass = true;
  expires_at = 0;
}

-- A manager with every collaborator, whose publisher fails.
abbrev idle : Manager
idle = record {
  pending = [];
  timers = [];
  timeout = 300;
  emitter = true;
  injector = true;
  dedup = true;
  marker = true;
  publisher = some (λ path. none);
  validator = none;
  log = [];
}

abbrev waiting : Manager
waiting = record idle { pending = (1 ∷ [], draft) ∷ [] }

-- The timer fires after the decision, and a second decision follows.
abbrev calls : List Call
calls =
    registers 0 [] draft
    ∷ decides true (1 ∷ []) reject []
    ∷ expires (1 ∷ [])
    ∷ decides true (1 ∷ []) approve []
    ∷ []

run-resolutions_example : resolutions (1 ∷ []) (run idle calls).log ≤ registrations (1 ∷ []) calls
run-resolutions_example = run-resolutions (1 ∷ []) idle calls refl refl
