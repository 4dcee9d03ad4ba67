-- ===== src/Witnesses.antt =====
-- Concrete runs at which the theorems apply.
mod Fixtures
mod Cashbook
mod Expenses
mod Loans
mod Schedules
mod Savings
mod Members
mod Accounts
mod Program
mod People
mod Lists
