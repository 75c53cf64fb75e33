-- ===== src/Eddsa/Keygen.antt =====
-- eddsa/keygen: the generation of a shared Ed25519 key.
pub mod Messages
pub mod State
pub mod Rounds
pub mod Round3
pub mod LocalParty
pub mod Evolution
pub mod Starts
pub mod Progress
pub mod Marks
pub mod Validation
pub mod Storage
pub mod Outcome
pub mod PartyCheck
pub mod Subset
