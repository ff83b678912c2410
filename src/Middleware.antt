-- ===== src/Middleware.antt =====
-- internal/middleware.
pub mod Replies
pub mod Redact
pub mod Idempotency
pub mod Clean
pub mod Once
