-- ===== src/Escrow.antt =====
-- The escrow contract, contracts/ahjoor-escrow/src. `Types` and `Events` are its data; the other
-- modules hold its entry points by topic.
pub mod Types
pub mod Events
pub mod Admin
pub mod Create
pub mod Release
pub mod Disputes
pub mod Deadlines
pub mod Parties
pub mod Templates
pub mod Arbiters
pub mod Ledger
pub mod Effects
pub mod Entry
pub mod Config
pub mod Sanction
pub mod Refinement
pub mod Solvency
pub mod Lifecycle
pub mod Pool
pub mod Consent
pub mod Tests
pub mod Batch
pub mod Progress
pub mod Payouts
pub mod Settlement
pub mod Extension
pub mod Pausing
