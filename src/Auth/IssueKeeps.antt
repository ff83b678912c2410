-- ===== src/Auth/IssueKeeps.antt =====
-- Issuing tokens, and the tables other than the two token tables.
use shieldgate.Base.{Bool, List, Text}
use shieldgate.Model.{Uuid, AccessToken, RefreshToken, Client}
use shieldgate.Effect.{Env, Db}
use shieldgate.Effect.Keeps.{Keeps, Rely, keeps_rules}
use shieldgate.Repo.Keeps.{Keeps-find, Keeps-write}
use shieldgate.Repo.AccessToken
use shieldgate.Repo.RefreshToken
use shieldgate.Repo.Accounts.{get_user}
use shieldgate.Auth.Claims.{AuthContext, generate_jwt, generate_id_token}
use shieldgate.Auth.Issue.{store_access_token, store_refresh_token, issue_id_token, issue_tokens}

module _ {P : Db → Type 0} (e : Env) (rely : Rely e P)
    (access : (d : Db) (rows : List AccessToken) → P d → P (record d { access_tokens = rows }))
    (refresh : (d : Db) (rows : List RefreshToken)
      → P d
      → P (record d { refresh_tokens = rows })) where
  -- A property of the other tables is kept.
  pub issue_tokens-Keeps :
      (tenant : Uuid) (client : Client) (user : Uuid) (scope : Text) (family : Uuid)
      (with_refresh with_id : Bool) (auth : AuthContext)
      → Keeps P (issue_tokens e tenant client user scope family with_refresh with_id auth)
  unfolding issue_tokens store_access_token generate_jwt store_refresh_token issue_id_token
      generate_id_token AccessToken.create RefreshToken.create get_user
  issue_tokens-Keeps tenant client user scope family with_refresh with_id auth =
      search (keeps_rules, Keeps-write e rely, Keeps-find e rely, access, refresh) depth 20
