-- ===== src/Permission.antt =====
-- internal/permission: which tool calls may proceed.
pub mod Segment
pub mod Glob
pub mod Rows
pub mod Rules
pub mod Manager
pub mod Gate
