-- ===== src/Repo.antt =====
-- internal/repo/gorm: the repositories as statements on the tables.
pub mod Statements
pub mod AuthCode
pub mod AccessToken
pub mod RefreshToken
pub mod DeviceCode
pub mod Accounts
pub mod User
pub mod Client
pub mod AccountLinks
pub mod Mfa
pub mod Session
pub mod MfaUse
pub mod Keeps
pub mod Tenancy
pub mod Outcomes
pub mod Claims
pub mod CodeUse
pub mod TokenUse
pub mod InitialAccess
pub mod Idempotency
pub mod MfaEnroll
pub mod Reads
pub mod Saves
