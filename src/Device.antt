-- ===== src/Device.antt =====
-- internal/services/device_token_exchange.go.
pub mod UserCode
pub mod Flow
pub mod TokenExchange
pub mod Display
pub mod Grant
pub mod Polling
pub mod Delegation
