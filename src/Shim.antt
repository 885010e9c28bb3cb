-- ===== src/Shim.antt =====
-- The shell shim (internal/shim).
pub mod RingBuffer
pub mod Event
pub mod Persistent
mod Samples
