-- ===== src/Ecdsa.antt =====
-- The protocols under ecdsa/.
pub mod Signing
