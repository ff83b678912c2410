-- ===== src/Middleware/Replies.antt =====
-- What the middleware of internal/middleware reads of a request, and what it answers.
use shieldgate.Base.{ℕ, Option, Text}
use shieldgate.Model.{Uuid}

-- The tenant, user and client that the authentication set in the context, where it did. The body is
-- what `io.ReadAll` reads within the limit, or nothing if it fails.
pub record Request : Type 0 where
  pub method : Text
  pub uri : Text
  pub body : Option Text
  pub idempotency_key : Text
  pub tenant : Option Uuid
  pub user : Option Uuid
  pub client : Option Text

-- What a handler wrote.
pub record Response : Type 0 where
  pub status : ℕ
  pub content_type : Text
  pub body : Text

-- An error of the middleware with its status, a replayed response, or the handler's own.
pub data Reply : Type 0 where
  failed : ℕ → Text → Reply
  replayed : Response → Reply
  passed : Response → Reply
