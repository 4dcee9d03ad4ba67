-- ===== src/Savings.antt =====
-- src/savings and src/users-savings: the records of savings and their settlement.
pub mod Records
pub mod Service
pub mod Generation
pub mod Settlement
pub mod Principal
pub mod Listing
pub mod Periods
