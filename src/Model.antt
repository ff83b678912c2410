-- ===== src/Model.antt =====
-- internal/models/models.go: the records that the services and the repositories share. A UUID is a
-- number, with 0 for `uuid.Nil`; a time is a count of nanoseconds since 1970; a pointer that may be
-- nil is an `Option`. `json` and `gorm` tags are left out.
mod Basics
mod Entities
mod Accounts
mod Registration
mod Documents
mod Grants
mod Payloads
unfoldable pub use Basics.*
unfoldable pub use Entities.*
unfoldable pub use Accounts.*
unfoldable pub use Grants.*
pub use Registration.*
pub use Documents.*
pub use Payloads.*
