-- ===== src/Crypto/Accmta.antt =====
-- crypto/accmta: a product of two secrets becomes a sum of two, with the proofs of crypto/zkproofs for
-- each of the verifiers.
pub mod Proofs
pub mod Alice
pub mod Bob
pub mod Shares
