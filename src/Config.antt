-- ===== src/Config.antt =====
-- The configuration (internal/config).
pub mod Floats
pub mod Types
pub mod Defaults
pub mod Checks
pub mod Fields
pub mod Fix
pub mod Validate
pub mod Valid
pub mod Setters
pub mod Accepted
pub mod Roundtrip
mod Samples
