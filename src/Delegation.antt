-- ===== src/Delegation.antt =====
-- internal/delegation: background tasks, their table and the notices they leave.
pub mod Rows
pub mod Notice
pub mod Manager
