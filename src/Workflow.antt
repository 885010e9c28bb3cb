-- ===== src/Workflow.antt =====
-- The workflow runner (internal/workflow).
pub mod LimitedBuffer
pub mod Types
pub mod Expression
pub mod Secrets
pub mod Output
pub mod Runner
pub mod Cycles
pub mod Validate
mod Samples
