-- ===== src/Escrow/Effects.antt =====
-- The entry points of contracts/ahjoor-escrow/src/lib.rs against the moves of `Escrow.Ledger`, by
-- topic.
pub mod Creation
pub mod Plain
pub mod Shares
pub mod Leaving
pub mod Releasing
pub mod Disputing
pub mod Keeping
