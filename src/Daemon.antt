-- ===== src/Daemon.antt =====
-- The daemon's own data structures (internal/daemon).
pub mod CircuitBreaker
pub mod IngestionQueue
pub mod SessionManager
mod Samples
