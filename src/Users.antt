-- ===== src/Users.antt =====
-- internal/services/user_service_impl.go: accounts, passwords and account emails.
pub mod Service
pub mod Links
pub mod Login
pub mod Sole
pub mod Lockout
pub mod SignOut
pub mod Changed
pub mod Reset
