-- ===== src/Sessions.antt =====
-- internal/services/session_service_impl.go: sign-on sessions and consent.
pub mod Service
pub mod Live
pub mod Consents
