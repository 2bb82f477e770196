-- ===== src/Slice.antt =====
-- The package slice: the growable buffer (slice/Slice.go), the functions on plain slices
-- (slice/common.go) and the index of readable parts (slice/SliceIndex.go).
mod GoSlice
pub mod Buf
pub mod Ops
pub mod Index
