-- ===== src/Tests/Clients.antt =====
-- Clients and their secrets on the example tables.
use shieldgate.Base.{
  ◌≡◌, refl, true, Option, none, some, List, [], ◌∷◌, Text, codes, text_eq, delete_rows, Any, arith,
}
use shieldgate.Model.{ok, Client}
use shieldgate.Effect.{Action, pure, throw, or_fail, wrap, ◌>>=◌, clock, statement}
use shieldgate.Repo.Statements.{find}
use shieldgate.Repo.Client.{has_client_id, get_by_client_id}
use shieldgate.Repo.Outcomes.{seen}
use shieldgate.Clients.Cache.{Entry, lookup, verified, fresh_entry, remember}
use shieldgate.Clients.Service.{compare_secret, check_secret, validate_found, validate_client}
use shieldgate.Clients.Sound.{IsSound}
use shieldgate.Clients.Cached.{
  Authenticated, AnswersAs, validate_client-AnswersAs, validate_client-Authenticated,
}
use shieldgate.Tests.Fixture.{server, world, confidential}

-- A cache that holds the confidential client's secret.
abbrev warm : Option (List Entry)
warm = some (fresh_entry server 3_000_000_000_000 81 (codes "$s3") (codes "s3") ∷ [])

apart : (s t : Text) → server.secret_mac s ≡ server.secret_mac t → s ≡ t
apart s t h = cc h

warm-IsSound : IsSound server warm
unfolding text_eq
warm-IsSound = (((codes "s3", refl, refl), tt), omega arith)

abbrev knock : Action (Client × Option (List Entry))
knock = validate_client server 65 warm (codes "web") (codes "s3")

answers_example : AnswersAs knock (validate_client server 65 none (codes "web") (codes "s3")) world
answers_example =
    validate_client-AnswersAs server 65 apart warm warm-IsSound (codes "s3") (codes "web") world

knocked : knock world ≡ (ok (confidential, warm), (knock world).1)
unfolding validate_client get_by_client_id find validate_found check_secret compare_secret verified
    lookup remember text_eq delete_rows pure throw or_fail wrap ◌>>=◌ clock statement
knocked = refl

known_client_example :
    (has_client_id 65 (codes "web") confidential ≡ true)
    × Any (λ r. r ≡ confidential) (seen server world).clients
    × Authenticated server confidential (codes "s3")
    × IsSound server warm
known_client_example =
    validate_client-Authenticated server 65 apart warm warm-IsSound (codes "s3") (codes "web") world
      knocked
