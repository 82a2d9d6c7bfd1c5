-- ===== src/Provider.antt =====
-- internal/provider: what the adapters and the agent loop exchange.
pub mod Message
pub mod Pairing
pub mod Sse
