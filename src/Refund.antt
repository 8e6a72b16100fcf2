-- ===== src/Refund.antt =====
-- The refund contract, contracts/ahjoor-refund/src. `Types` and `Events` are its data; the other
-- modules hold its entry points by topic.
pub mod Types
pub mod Events
pub mod Admin
pub mod Records
pub mod Request
pub mod Decide
pub mod Process
pub mod Views
pub mod Entry
pub mod Ledger
pub mod Effects
pub mod Config
pub mod Refinement
pub mod Sanction
pub mod Solvency
pub mod Lifecycle
pub mod Appeals
pub mod Refusals
pub mod Paging
pub mod Tiers
pub mod Queue
pub mod Delegates
pub mod Tests
