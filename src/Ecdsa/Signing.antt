-- ===== src/Ecdsa/Signing.antt =====
-- ecdsa/signing: the parts that stand outside the rounds.
pub mod Prepare
pub mod PublicShare
