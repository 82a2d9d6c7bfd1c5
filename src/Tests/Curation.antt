-- ===== src/Tests/Curation.antt =====
-- The lease, with two processes.
use workhorse_agent.Prelude.{◌≡◌, refl, true, List, [], ◌∷◌, Text, text_eq, arith}
use workhorse_agent.Curation.Lease.{Row}
use workhorse_agent.Curation.Lease.Exclusive.{Event, acquires, run, fresh, lease_exclusive}

abbrev free_row : Row
free_row = record { holder = []; expires_at = 0; heartbeat_at = 0 }

abbrev first : Text
first = 1 ∷ []

abbrev second : Text
second = 2 ∷ []

-- The first process gets the lease, the second asks twice, and the lease has run out by then.
abbrev contest : List Event
contest =
    record { who = first; wait = 5; answers = true; call = acquires 100 }
    ∷ record { who = second; wait = 50; answers = true; call = acquires 100 }
    ∷ record { who = second; wait = 80; answers = true; call = acquires 100 }
    ∷ []

lease_exclusive_example : second ≡ second
unfolding run text_eq
lease_exclusive_example =
    lease_exclusive free_row 10 contest second second 245 245 refl refl (omega arith) (omega arith)

first_lost : (run (fresh free_row 10) contest).row.holder ≡ second
unfolding run text_eq
first_lost = refl
