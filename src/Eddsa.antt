-- ===== src/Eddsa.antt =====
-- The protocols under eddsa/.
pub mod Keygen
pub mod Signing
