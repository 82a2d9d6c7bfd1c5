-- ===== src/Tools.antt =====
-- internal/tools: the registry of tools and the cap on their output.
pub mod Registry
pub mod Truncate
pub mod Filter
