-- ===== src/Typo.antt =====
-- The edit distances behind typo correction (internal/suggestions/typo).
pub mod Distance
mod Samples
