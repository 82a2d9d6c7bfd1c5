-- ===== src/Curation/Lease.antt =====
-- internal/memory/curation/lease.go: the leader lease over its one table row. Times are
-- microseconds. Each statement is one step on the row; `answers` says whether the database does.
pub mod Exclusive
use workhorse_agent.Prelude.{ℕ, ◌+◌, Bool, true, false, ◌||◌, [], Text, text_eq, ltb, if◌then◌else◌}

pub record Row : Type 0 where
  pub holder : Text
  pub expires_at : ℕ
  pub heartbeat_at : ℕ

-- One process: its token, and whether procMu is locked.
pub record Lease : Type 0 where
  pub holder : Text
  pub proc_mu : Bool

-- Whether one row was affected, and the row.
unfoldable pub acquire_cas : Text → ℕ → ℕ → Row → Bool × Row
acquire_cas holder now ttl row =
    if ltb row.expires_at now || text_eq row.holder holder
    then (true, record { holder = holder; expires_at = now + ttl; heartbeat_at = now })
    else (false, row)

-- The result of a call: the lease is held or not, or the database failed.
pub data Answer : Type 0 where
  held lost failed : Answer

unfoldable pub acquire : Bool → ℕ → ℕ → Lease → Row → Answer × Lease × Row
unfolding acquire_cas
acquire answers now ttl l row =
    if l.proc_mu
    then (lost, l, row)
    else if answers
    then (let (won, row') = acquire_cas l.holder now ttl row in
        if won
        then (held, record l { proc_mu = true }, row')
        else (lost, record l { proc_mu = false }, row'))
    else (failed, record l { proc_mu = false }, row)

unfoldable pub renew : Bool → ℕ → ℕ → Lease → Row → Answer × Row
renew answers now ttl l row =
    if answers
    then (if text_eq row.holder l.holder
        then (held, record { holder = l.holder; expires_at = now + ttl; heartbeat_at = now })
        else (lost, row))
    else (failed, row)

unfoldable pub release : Bool → Lease → Row → Answer × Lease × Row
release answers l row =
    if answers
    then (
      lost,
      record l { proc_mu = false },
      if text_eq row.holder l.holder
          then record { holder = []; expires_at = 0; heartbeat_at = 0 }
          else row,
    )
    else (failed, record l { proc_mu = false }, row)
