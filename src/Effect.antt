-- ===== src/Effect.antt =====
-- What every service works in: the database's tables, the outside world that the code calls (SQL
-- engine, clock, random source, cryptography, other requests), and actions that may fail.
mod Outside
mod Actions
pub mod Keeps
pub mod Inversion
pub use Outside.*
unfoldable pub use Actions.*
