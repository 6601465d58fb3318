-- ===== src/Permute.antt =====
-- fips202/keccakf1600.c: the permutation of the 50 words, KeccakP1600_Permute_Nrounds.
pub mod Words
pub mod Plane
pub mod Round0
pub mod Round1
pub mod Round2
pub mod Round3
pub mod Nrounds
pub mod Invariant
pub mod Run
pub mod Standard
pub mod Relabel
pub mod Agree
pub mod Reachable
