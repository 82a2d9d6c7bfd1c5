-- ===== src/Session.antt =====
-- internal/session: the live sessions and the record of each.
pub mod State
pub mod Rows
pub mod Manager
pub mod History
pub mod Events
