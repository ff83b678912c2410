-- ===== src/Auth.antt =====
-- internal/services/auth_service_impl.go: the authorization server's token service.
pub mod Claims
pub mod Issue
pub mod IssueKeeps
pub mod Exchange
pub mod Refresh
pub mod Revoke
pub mod Introspect
pub mod Tenancy
pub mod CodeGrant
pub mod SingleUse
pub mod Narrowing
pub mod Rotation
pub mod FamilyRevocation
pub mod TokenChecks
pub mod Issued
