-- ===== src/Mfa.antt =====
-- The second factor: internal/mfa and internal/services/mfa_service_impl.go.
pub mod Totp
pub mod Service
pub mod Steps
pub mod Accepted
pub mod Enroll
pub mod Confirmed
