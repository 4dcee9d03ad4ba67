-- ===== src/Auth.antt =====
-- Authentication (src/auth): one-time passwords, tokens, and the service.
pub mod Otp
pub mod Tokens
pub mod Service
pub mod Codes
pub mod Credentials
pub mod Members
pub mod Sessions
pub mod Registration
pub mod Verification
