-- ===== src/Tss.antt =====
-- The package tss/.
pub mod Curve
pub mod PartyId
pub mod Message
pub mod Params
pub mod Party
pub mod Rounds
