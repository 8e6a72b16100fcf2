-- ===== src/Payments.antt =====
-- The payments contract: contracts/ahjoor-payments/src.
pub mod Types
pub mod Events
pub mod Fees
pub mod Shares
pub mod Splits
pub mod Tests
