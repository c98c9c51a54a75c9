-- ===== src/Ot.antt =====
-- The stores of oblivious-transfer results (yacl/ot/slice_base.h, slice_base.cc, ot_store.h,
-- ot_store.cc): counters over a buffer that a store shares with its slices.
pub mod Slice
pub mod RecvStore
pub mod SendStore
