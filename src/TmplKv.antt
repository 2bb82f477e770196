-- ===== src/TmplKv.antt =====
-- The package tmplKV: stores whose entries expire, over the maps of package sync and the ids of
-- package idpool. The clock that a goroutine sets is the field `now`, in Unix seconds.
pub mod Times
pub mod KvStore
pub mod KStore
pub mod VStore
