-- ===== src/Clients.antt =====
-- OAuth clients: internal/services/client_service_impl.go, client_secret_cache.go, client_metadata.go
-- and registration_service_impl.go.
pub mod Cache
pub mod Service
pub mod Sound
pub mod Cached
pub mod Metadata
pub mod Registration
pub mod UsesLeft
pub mod Uses
pub mod MetadataKeeps
pub mod Valid
pub mod Registered
pub mod Revised
