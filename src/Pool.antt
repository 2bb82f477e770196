-- ===== src/Pool.antt =====
-- The package pool: a fixed array lent out in blocks (pool/Blocks.go), and a pool of items that
-- its callers hold (pool/Pool.go).
pub mod Blocks
pub mod Items
