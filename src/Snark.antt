-- ===== src/Snark.antt =====
-- yacl/snark: rank-1 constraint systems and the builder of circuits.
pub mod Mp
pub mod Qap
pub mod R1cs
pub mod Builder
pub mod Gadgets
pub mod Poly
