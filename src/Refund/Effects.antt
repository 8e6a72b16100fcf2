-- ===== src/Refund/Effects.antt =====
-- The entry points of contracts/ahjoor-refund/src/lib.rs against the moves of `Refund.Ledger`.
pub mod Parts
pub mod Deciding
pub mod Opening
pub mod Stages
pub mod Requesting
pub mod Paying
pub mod Bulk
pub mod Appealing
