-- ===== src/Tests/Idempotency.antt =====
-- Idempotency keys on the example tables.
use shieldgate.Base.{◌≡◌, refl, inl, inr, ◌⊎◌, none, some, codes, text_eq}
use shieldgate.Model.{invalid_grant, Json, json_object, json_null, entry, no_entries}
use shieldgate.Effect.{Action, pure, throw}
use shieldgate.Middleware.Replies.{Request, Response}
use shieldgate.Middleware.Redact.{redact_response}
use shieldgate.Middleware.Clean.{Holds, redact_response-clean}
use shieldgate.Middleware.Idempotency.{idempotency, idempotency_principal}
use shieldgate.Middleware.Once.{IsInUse, idempotency-same}
use shieldgate.Tests.Fixture.{server, world}

abbrev post : Request
post = record {
  method = codes "POST";
  uri = codes "/v1/users";
  body = some (codes "{}");
  idempotency_key = codes "k1";
  tenant = some 65;
  user = some 67;
  client = none;
}

abbrev created : Action Response
created = pure (record { status = 201; content_type = codes "application/json"; body = codes "{}" })

in_use : IsInUse server 65 (codes "{}") post 1_000_000_000 world
unfolding text_eq idempotency_principal
in_use = record { stored = inl refl; alive = (refl, tt) }

same_example :
    idempotency server 1_000_000_000 post created world
    ≡ idempotency server 1_000_000_000 post (throw invalid_grant) world
unfolding text_eq idempotency_principal
same_example =
    idempotency-same server 1_000_000_000 post created (throw invalid_grant) 65 (codes "{}") world
      refl refl refl refl in_use

clean_example :
    (clean : Json) × (¬ Holds (codes "secret") clean)
    × ((server.json_print clean ≡ some (redact_response server (codes "{s}")))
        ⊎ (server.json_parse (redact_response server (codes "{s}")) ≡ some clean))
unfolding text_eq
clean_example =
    redact_response-clean server (codes "{s}")
      (json_object (entry (codes "secret") json_null no_entries)) (codes "secret") (λ j h. cc h)
      refl (inr (inl refl))
