-- ===== src/Crypto.antt =====
-- The packages under crypto/.
pub mod Commitments
pub mod Curve
pub mod Point
pub mod Vss
pub mod Schnorr
pub mod Paillier
pub mod ZkProofs
pub mod Mta
pub mod Accmta
pub mod Facproof
pub mod Dlnproof
pub mod Ckd
