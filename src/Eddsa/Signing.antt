-- ===== src/Eddsa/Signing.antt =====
-- The package eddsa/signing.
pub mod Encoding
pub mod Prepare
pub mod Additive
pub mod Messages
pub mod Edwards
pub mod State
pub mod Storage
pub mod Completion
pub mod Rounds
pub mod Round3
pub mod Finalize
pub mod LocalParty
pub mod Verified
pub mod Evolution
pub mod Starts
pub mod Progress
pub mod Advance
pub mod Equation
