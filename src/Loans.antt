-- ===== src/Loans.antt =====
-- src/loans: calculation, application, disbursement, settlement and the overdue run of loans.
pub mod Rounding
pub mod Payments
pub mod Schedule
pub mod Repository
pub mod Application
pub mod Service
pub mod Overdue
pub mod Dates
pub mod Settlement
pub mod Decisions
pub mod Disbursement
pub mod Lifecycle
pub mod Once
pub mod Totals
pub mod Plan
pub mod Oldest
pub mod Penalties
pub mod Limits
pub mod Listing
