-- ===== src/Tests.antt =====
-- Runs of the code on concrete inputs, and the theorems applied to them.
mod Toy
mod Commitments
mod Curves
mod Tss
mod Keygen
mod Paillier
mod Proofs
mod Ckd
mod CggProofs
mod Signing
mod SigningRounds
