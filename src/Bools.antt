-- ===== src/Bools.antt =====
-- The package bools: rules on named conditions (bools/BoolS.go).
pub mod BoolS
