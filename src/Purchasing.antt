-- ===== src/Purchasing.antt =====
-- Buying: decisions on requests and requisitions, claims on the procurement list, receipts.
pub mod Apportion
pub mod Receipt
pub mod Claims
pub mod Approval
mod Tests
