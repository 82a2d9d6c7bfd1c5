-- ===== src/Agent.antt =====
-- internal/agent: how a turn's tool calls are run.
pub mod Orchestrator
pub mod Retry
pub mod Compaction
pub mod Loop
