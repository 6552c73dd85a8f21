-- ===== src/Memory/Rounds.antt =====
-- What one `Reconcile` does to the line and to the sessions: who is reaped, who is evicted, who is
-- promoted, and what the result reports.
pub mod Expiry
pub mod Eviction
pub mod Promotion
pub mod Outcome
