-- ===== src/Tests.antt =====
-- The theorems at concrete inputs, and runs of the definitions.
mod Permission
mod Curation
mod Dedup
mod SessionManager
mod Approval
mod Schedule
mod ScheduleRuns
mod Agent
mod Loop
mod Delegation
mod Filter
mod Sse
mod Events
