-- ===== src/Common.antt =====
-- The package common/.
pub mod Hash
pub mod Challenge
pub mod Slice
pub mod ModInt
