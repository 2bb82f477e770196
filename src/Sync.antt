-- ===== src/Sync.antt =====
-- The package sync: maps that count their entries (sync/Map.go).
pub mod Map
pub mod Exceeded
pub mod LoadOrInit
