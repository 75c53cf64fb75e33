-- ===== src/Crypto/Mta.antt =====
-- The package crypto/mta.
pub mod RangeProof
pub mod ProofBob
pub mod ShareProtocol
pub mod Shares
