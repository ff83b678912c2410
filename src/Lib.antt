-- ===== src/Lib.antt =====
-- ShieldGate is a multi-tenant OAuth 2.0 and OpenID Connect server. This library models the
-- services that hand out, check and take back grants, and the repositories under them.
--
-- The parts, and how they interact. A request to the token endpoint calls the token service
-- (internal/services/auth_service_impl.go) or the device and token exchange service
-- (internal/services/device_token_exchange.go). Both read and write the tables through the
-- repositories (internal/repo/gorm), test scopes (internal/services/scope.go), and sign tokens
-- with internal/jwtkeys.
--
-- Base: texts as lists of code points with the functions of package strings that the code calls
--   (Strings), table rows as lists (Rows), Boolean tests (Tests).
-- Model: the structs and sentinel errors of internal/models/models.go, field by field.
-- Effect: how a request runs. An Action is a function from a World to a result and a World; the
--   World is the tables, the number of outside calls made, and the token events reported. Outside
--   holds what is not in the repository; Keeps and Inversion hold the lemmas on actions.
-- Repo: one module per file of internal/repo/gorm: AuthCode, AccessToken, RefreshToken,
--   DeviceCode, Session for session.go, Mfa for mfa.go, Accounts for the lookups by identifier of
--   client.go and user.go, and those named below. Outcomes, CodeUse, TokenUse and MfaUse say what
--   their results tell of the tables, Reads in which world the next step runs, Saves what a saved
--   row leaves, Tenancy that they stay within a tenant.
-- Scope: internal/services/scope.go, unionScopes of session_service_impl.go and the text helpers
--   of client_metadata.go.
-- Auth: auth_service_impl.go and oidc_claims.go. Claims: the claim sets, PKCE, generateJWT and
--   GenerateIDToken. Issue: GenerateAuthorizationCode, issueTokens and its callers. Exchange,
--   Refresh, Revoke, Introspect: the methods of these names. The other modules are proofs.
-- Device: device_token_exchange.go. UserCode: user codes. Flow: RFC 8628. TokenExchange: RFC 8693.
-- Mfa: the second factor: internal/mfa (Totp) and mfa_service_impl.go (Service, Enroll), over Repo/Mfa
--   and Repo/MfaEnroll; Steps, Accepted and Confirmed are proofs.
-- Sessions: session_service_impl.go (Service) over Repo/Session; Live and Consents are proofs.
-- Users: user_service_impl.go. Service: accounts, login and passwords. Links: the links of address
--   verification and password reset. Login, Sole, Lockout, SignOut, Changed and Reset are proofs.
--   Below are Repo/User for user.go and Repo/AccountLinks for the verifications and resets of email.go.
-- Clients: client_service_impl.go (Service), client_secret_cache.go (Cache), client_metadata.go
--   (Metadata) and registration_service_impl.go (Registration), over Repo/Client for client.go and
--   Repo/InitialAccess for initial_access_token.go. Sound and Cached are proofs on the cache, Valid and
--   MetadataKeeps on metadata, UsesLeft, Uses, Registered and Revised on
--   registration.
-- Middleware: internal/middleware/idempotency.go (Idempotency, Redact) over Repo/Idempotency, for
--   requests and replies as Replies has them. Once and Clean are proofs.
-- Tests: a small server with concrete tables, and the theorems applied to it.
--
-- What stands for the outside. The record Env holds, as functions of the number of the call, the
-- clock, the random source, new UUIDs, the signatures and the token parser; the record Database
-- holds the four kinds of SQL statements with the laws that the code relies on: a query returns a
-- matching row or none, an update changes the matching rows and reports them, a deletion removes
-- them. `fails n` lets any statement fail, and `others n` lets other requests change the tables
-- before any statement, so a theorem without a hypothesis on them holds for every interleaving of
-- whole statements; what a theorem needs of other requests is its hypothesis Rely.
--
-- Conventions. A UUID is a number, 0 being uuid.Nil; a Time is a number of nanoseconds since the
-- epoch, so before 1970 nothing is representable, and a duration is a number of nanoseconds that
-- is not negative. A nil pointer to a time or an identifier is `none`. JSON columns are lists. A
-- transaction is one statement, and so is gorm's Save, which sends an UPDATE and, if that changed
-- no row, an INSERT (save_row, and save of Repo/DeviceCode): what other requests do between these
-- two is left out. TOTP steps are numbers, so the clock is taken to be past the first
-- half minute of 1970. Loops over lists are structural recursion, so no fuel is used. Log lines
-- are left out.
--
-- The sender of emails, bcrypt, the parsing of URLs and IP addresses and of JSON are outside too. A
-- 64-bit integer of a request is its bit pattern. A count reads the table directly. A panic of a
-- handler is an error of its action.
--
-- Not modelled: roles, permissions, tenants, audit and the email queue; the HTTP handlers and the
-- other middleware; key rotation; listings; and the token service's periodic clean-up of expired rows.
pub mod Base
pub mod Model
pub mod Effect
pub mod Repo
pub mod Scope
pub mod Auth
pub mod Device
pub mod Mfa
pub mod Sessions
pub mod Users
pub mod Clients
pub mod Middleware
pub mod Tests
