-- ===== src/Curation.antt =====
-- internal/memory/curation: the background worker that tidies the memories.
pub mod Lease
pub mod Dedup
