-- ===== src/Tests.antt =====
-- Examples: the theorems at concrete inputs.
mod Fixture
mod Codes
mod Refreshes
mod Devices
mod Delegations
mod Logins
mod Factors
mod Checks
mod Texts
mod Accounts
mod Clients
mod Registrations
mod Idempotency
mod Enrollments
