-- ===== src/Middleware/Clean.antt =====
-- What `redactResponse` leaves in a stored response.
use shieldgate.Base.{
  Bool, true, false, ◌||◌, ◌≡◌, refl, ap, ◌⊎◌, inl, inr, none, some, List, [], ◌∷◌, Text, codes,
  Bool-cases, Option-cases,
}
use shieldgate.Model.{
  Json, json_null, json_bool, json_number, json_string, json_array, json_object, Items, no_items,
  item, Entries, no_entries, entry,
}
use shieldgate.Scope.{contains}
use shieldgate.Scope.Subset.{Has, Has→contains}
use shieldgate.Effect.{Env}
use shieldgate.Middleware.Redact.{
  redacted_fields, redact, redact_items, redact_entries, is_redacted, any_redacted, entry_redacted,
  redact_response,
}

-- The names of the fields that a response shows once.
abbrev pub one_time_fields : List Text
one_time_fields =
    codes "client_secret"
    ∷ codes "secret"
    ∷ codes "otpauth_uri"
    ∷ codes "recovery_codes"
    ∷ codes "initial_access_token"
    ∷ []

-- A document holds a field of this name, in an object at any depth.
unfoldable mutual
  pub Holds : Text → Json → Type 0
  Holds name json_null = ⊥
  Holds name (json_bool b) = ⊥
  Holds name (json_number n) = ⊥
  Holds name (json_string s) = ⊥
  Holds name (json_array items) = SomeItem name items
  Holds name (json_object entries) = SomeEntry name entries

  pub SomeItem : Text → Items → Type 0
  SomeItem name no_items = ⊥
  SomeItem name (item j rest) = Holds name j ⊎ SomeItem name rest

  pub SomeEntry : Text → Entries → Type 0
  SomeEntry name no_entries = ⊥
  SomeEntry name (entry k j rest) = (k ≡ name) ⊎ (Holds name j ⊎ SomeEntry name rest)

or_false : (a b : Bool) → (a || b) ≡ false → (a ≡ false) × (b ≡ false)
or_false true b h = absurd (cc h)
or_false false b h = (refl, h)

module _ (name : Text) (secret : contains redacted_fields name ≡ true) where
  other_name : (k : Text) → contains redacted_fields k ≡ false → k ≡ name → ⊥
  other_name k shown same = cc (ap (contains redacted_fields) same, secret, shown)

  entry-free :
      (k : Text) (j : Json) (rest : Entries)
      → contains redacted_fields k ≡ false
      → (Holds name j → ⊥)
      → (SomeEntry name rest → ⊥)
      → SomeEntry name (entry k j rest)
      → ⊥
  unfolding SomeEntry
  entry-free k j rest shown here later (inl same) = other_name k shown same
  entry-free k j rest shown here later (inr (inl h)) = here h
  entry-free k j rest shown here later (inr (inr h)) = later h

  mutual
    unfolding redact Holds

    redact-free : (j : Json) → Holds name (redact j) → ⊥
    redact-free json_null h = h
    redact-free (json_bool b) h = h
    redact-free (json_number n) h = h
    redact-free (json_string s) h = h
    redact-free (json_array items) h = redact_items-free items h
    redact-free (json_object entries) h = redact_entries-free entries h

    redact_items-free : (items : Items) → SomeItem name (redact_items items) → ⊥
    redact_items-free no_items h = h
    redact_items-free (item j rest) (inl h) = redact-free j h
    redact_items-free (item j rest) (inr h) = redact_items-free rest h

    redact_entries-free : (entries : Entries) → SomeEntry name (redact_entries entries) → ⊥
    redact_entries-free no_entries h = h
    redact_entries-free (entry k j rest) h = elim (Bool-cases (contains redacted_fields k)) [
      | inl gone ↦ redact_entries-free rest (rw gone at h)
      | inr shown ↦
          entry-free k (redact j) (redact_entries rest) shown (redact-free j)
            (redact_entries-free rest) (rw shown at h)
    ]

  mutual
    unfolding is_redacted Holds

    unredacted-free : (j : Json) → is_redacted j ≡ false → Holds name j → ⊥
    unredacted-free json_null clean h = h
    unredacted-free (json_bool b) clean h = h
    unredacted-free (json_number n) clean h = h
    unredacted-free (json_string s) clean h = h
    unredacted-free (json_array items) clean h = unredacted_items-free items clean h
    unredacted-free (json_object entries) clean h = unredacted_entries-free entries clean h

    unredacted_items-free : (items : Items) → any_redacted items ≡ false → SomeItem name items → ⊥
    unredacted_items-free no_items clean h = h
    unredacted_items-free (item j rest) clean (inl h) = unredacted-free j (or_false _ _ clean).0 h
    unredacted_items-free (item j rest) clean (inr h) =
        unredacted_items-free rest (or_false _ _ clean).1 h

    unredacted_entries-free :
        (entries : Entries) → entry_redacted entries ≡ false → SomeEntry name entries → ⊥
    unredacted_entries-free no_entries clean h = h
    unredacted_entries-free (entry k j rest) clean h =
        let (here, later) = or_false _ _ clean in
        let (shown, inside) = or_false _ _ here in
        entry-free k j rest shown (unredacted-free j inside) (unredacted_entries-free rest later) h

-- If every document can be printed, what `redactResponse` makes of a body that is JSON is the print
-- of a document that has, in no object at any depth, a field of a given name that a response shows
-- once (`client_secret`, `secret`, `otpauth_uri`, `recovery_codes`, `initial_access_token`), or it
-- parses as such a document.
pub redact_response-clean :
    (e : Env) (body : Text) (doc : Json) (name : Text)
    → ((j : Json) → ¬ (e.json_print j ≡ none))
    → e.json_parse body ≡ some doc
    → Has name one_time_fields
    → (clean : Json) × (¬ Holds name clean)
      × ((e.json_print clean ≡ some (redact_response e body))
          ⊎ (e.json_parse (redact_response e body) ≡ some clean))
unfolding redact_response
redact_response-clean e body doc name prints parsed once =
    let secret = Has→contains redacted_fields name once in
    elim (Bool-cases (is_redacted doc)) [
      | inr clean ↦ (doc, unredacted-free name secret doc clean, inr (rw (parsed, clean) parsed))
      | inl found ↦ elim (Option-cases (e.json_print (redact doc))) [
        | inl failed ↦ absurd (prints (redact doc) failed)
        | inr (out, printed) ↦
            (redact doc, redact-free name secret doc, inl (rw (parsed, found, printed) refl))
      ]
    ]
