-- ===== src/Lib.antt =====
-- workhorse-agent: the decision logic of the agent server, a model of its Go code with proofs.
--
-- The server runs sessions. A session manager owns them, an agent loop drives each one: it
-- streams a turn from a provider, retries that stream, asks the permission gate about the tool
-- calls of the turn, gives the calls that are let through to the orchestrator, and answers each
-- tool use in the history; a compactor shortens that history. What a session emits goes to a
-- table and to an outbox, from which a client's stream is served. Beside it run background
-- delegations, whose notices the next turn of their session starts with, a scheduler that starts
-- unattended sessions, a curation worker that one process at a time may run, and a manager of the
-- adapters that wait for a human's approval.
--
-- The files, and the code that each is about:
-- - Prelude: shared names. Texts are lists of bytes, numbers are native; a map is a list of pairs
--   with one pair for each key (Prelude/Maps), a definition with several ways to fail returns a
--   sum.
-- - Permission: internal/permission. Glob and Segment are MatchGlob, matchSegs and filepath.Match
--   on one segment (glob.go); Rows is the permissions table with SavePermission and
--   ListPermissions of internal/store/sqlite/crud.go; Rules is the state of manager.go with its
--   stored rules, Manager is Check, split as the code splits it into the guard, the cached
--   decisions and the prompt; Gate is checkPermissions and extractResource of
--   internal/agent/loop.go.
-- - Provider: Message is the types of internal/provider/provider.go, Pairing the rule on tool
--   uses and their results that the vendors hold a history to, Sse is
--   internal/provider/sseparse.go.
-- - Session: State is the state machine of internal/session/session.go, History its messages and
--   pending tool uses, Events its Emit and EmitNow with the events table and the replay of
--   internal/api/stream_get.go, Manager is internal/session/manager.go in terms of its critical
--   sections (reserve, publish, abandon, unlist and the whole of GetOrHydrate), Rows the sessions
--   table of internal/store/sqlite/crud.go.
-- - Curation.Lease: internal/memory/curation/lease.go; Exclusive interleaves any processes'
--   calls. Curation.Dedup: internal/memory/curation/dedup.go, Cluster up to its grouping by root.
--   The loop of find runs on as many rounds as pairs were considered before; its theorem says
--   that these are enough. Roots is about the forest of parents, Labels about chains of pairs.
-- - Approval: internal/extagent/approval/manager.go. Every method and the timer's callback hold
--   the mutex and are one step each; what the collaborators and the disk are told is a log.
-- - Schedule: Cron is internal/schedule/cron.go, Rows the schedules table, Worker
--   internal/schedule/worker.go as a run of ticks and of calls of the schedule tools between
--   them, Runs the schedule_runs table with the newest runs that its pruning keeps, Runner
--   internal/schedule/runner.go and run.go, its closing statement under the caller's context.
-- - Tools: Registry is internal/tools/registry.go, Filter its Filtered with the deny filter of
--   internal/session/session.go, Truncate internal/tools/truncate.go.
-- - Delegation: Rows is the delegations table, Manager internal/delegation/manager.go and id.go,
--   Notice the texts that a finished task makes.
-- - Agent: Orchestrator is internal/agent/orchestrator.go, Retry internal/agent/retry.go,
--   Compaction internal/agent/compaction.go. Loop is internal/agent/loop.go: Stream is
--   consumeProviderStream, Batch runToolBatch, Passes runTurnLoop with its compaction, Turn
--   runTurnSafe with the ends of a turn. A turn runs on a script, one entry for each pass, that
--   says what the provider, the gate and the tools answer and by which step the turn is cancelled
--   or panics; a script that is over before its turn leaves the turn under way.
-- - Tests: runs of the definitions and the theorems at concrete inputs.
--
-- Parameters, for code that is not in the repository or that talks to the world: the answers of
-- the prompt, of the provider, of a tool's Run and of the database; the clock and the random
-- source; the local time of an instant (package time); utf8.DecodeLastRune, `%d` and the printing
-- of a duration (packages unicode/utf8 and fmt). Hypotheses about them stand in the theorems that
-- need them.
--
-- Loops and fuel: matchSegs, BatchTools, Tick and the scans of tables are structural. The reader
-- of a character class and the matcher of one segment run on the length of their text, which each
-- step shortens. A cron step runs on 128 rounds: a field has at most sixty values, and a step so
-- large that it wraps past 2 ^ 63 comes back below its start by two or more each time. NextMatch
-- runs on 10082 rounds, two more than the minutes of its seven days. The retry loop runs on
-- Attempts + 1 rounds. GenerateUnique makes the code's twenty draws. Durations and instants are
-- natural numbers of nanoseconds, since the Unix epoch, and the code's other integers are natural
-- numbers where it never makes them negative; the cron step, which can, is a 64-bit pattern.
--
-- Not modelled: HTTP, the frames of the event stream and its slots, the provider clients, the
-- request that a pass of the agent loop sends, its inbox watcher and its frontend tools, the SQL
-- of messages and full-text search, file and process tools, the copy of go-git's matcher in
-- internal/tools/builtin/gitignore, prompts, skills and memory files, configuration, the
-- goroutines' scheduling beyond the critical sections named above, and the log lines. The error
-- texts of the managers are names; those of tool results are the code's texts.
pub mod Prelude
pub mod Provider
pub mod Session
pub mod Delegation
pub mod Permission
pub mod Curation
pub mod Approval
pub mod Schedule
pub mod Tools
pub mod Agent
mod Tests
