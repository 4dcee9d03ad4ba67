-- ===== src/Users.antt =====
-- The users (src/users): their table and their service.
pub mod Repository
pub mod Service
pub mod Approval
pub mod Updates
pub mod Listing
