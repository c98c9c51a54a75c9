-- ===== src/Tests.antt =====
-- Runs of the modelled code on small inputs, and the theorems at such inputs.
mod Segments
mod Channel
mod Closing
mod Chunks
mod Ot
mod Strings
mod Vss
mod Cuckoo
mod Mpc
mod Snark
mod Qap
