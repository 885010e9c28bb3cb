-- ===== src/Suggest.antt =====
-- The suggestions engine (internal/suggestions/suggest).
pub mod Lru
