-- ===== src/Clients/Sound.antt =====
-- What the secret cache of internal/services/client_secret_cache.go holds.
use shieldgate.Base.{
  ◌+◌, ◌≤◌, ◌≡◌, refl, sym, ◌∙◌, subst, Bool, true, leb, inl, inr, Option, none, some, List, [],
  ◌∷◌, Text, arith, All, All-delete_rows_keep, length, text_eq→eq, both_true, delete_rows,
  Bool-cases,
}
use shieldgate.Model.{Uuid, Time}
use shieldgate.Effect.{Env}
use shieldgate.Clients.Cache.{
  Entry, max_cached_client_secrets, has_key, lookup, verified, fresh_entry, remember,
}

-- An entry was made for a secret that bcrypt accepts.
abbrev pub IsProven : Env → Entry → Type 0
IsProven e entry =
    (s : Text) × (entry.mac ≡ e.secret_mac s) × (e.bcrypt_matches entry.stored_hash s ≡ true)

-- Every entry is proven, and there are not too many.
abbrev pub IsSound : Env → Option (List Entry) → Type 0
IsSound e none = Unit {0}
IsSound e (some entries) = All (IsProven e) entries × (length entries ≤ max_cached_client_secrets)

length-delete_rows :
    (p : Entry → Bool) (rows : List Entry) → length (delete_rows p rows) ≤ length rows
unfolding delete_rows
length-delete_rows p [] = omega arith
length-delete_rows p (r ∷ rows) = ground (arith, length-delete_rows p rows)

module _ (e : Env) where
  -- A new proven entry, in place of one with the same key.
  added-IsSound :
      (id : Uuid) (hash : Text) (entry : Entry) (kept : List Entry)
      → IsProven e entry
      → All (IsProven e) kept
      → length kept + 1 ≤ max_cached_client_secrets
      → IsSound e (some (entry ∷ delete_rows (has_key id hash) kept))
  added-IsSound id hash entry kept new proven few = (
    (new, All-delete_rows_keep _ (has_key id hash) kept proven),
    ground (arith, length-delete_rows (has_key id hash) kept),
  )

  pub remember-IsSound :
      (now : Time) (cache : Option (List Entry)) (id : Uuid) (hash secret : Text)
      → e.bcrypt_matches hash secret ≡ true
      → IsSound e cache
      → IsSound e (remember e now cache id hash secret)
  unfolding remember
  remember-IsSound now none id hash secret right h = tt
  remember-IsSound now (some entries) id hash secret right (proven, few) =
      elim (Bool-cases (leb max_cached_client_secrets (length entries))) [
        | inl full ↦ rw full (
            added-IsSound id hash (fresh_entry e now id hash secret) [] (secret, refl, right) tt
              (omega arith))
        | inr room ↦ rw room (
            added-IsSound id hash (fresh_entry e now id hash secret) entries (secret, refl, right)
              proven (ground arith))
      ]

  module _ (apart : (s t : Text) → e.secret_mac s ≡ e.secret_mac t → s ≡ t) where
    found-matches :
        (now : Time) (entries : List Entry) (id : Uuid) (hash secret : Text)
        → All (IsProven e) entries
        → verified e now (some entries) id hash secret ≡ true
        → e.bcrypt_matches hash secret ≡ true
    unfolding verified lookup
    found-matches now [] id hash secret h yes_ = absurd (cc yes_)
    found-matches now (entry ∷ rest) id hash secret ((s, made, right), h) accepted =
        elim (Bool-cases (has_key id hash entry)) [
          | inr other ↦ found-matches now rest id hash secret h (rw other at accepted)
          | inl here ↦
              let (_, same_mac) = both_true _ _ (rw here at accepted) in
              let (_, same_hash) = both_true _ _ here in
              subst (λ hh. e.bcrypt_matches hh secret ≡ true) (text_eq→eq _ _ same_hash)
                (subst (λ t. e.bcrypt_matches entry.stored_hash t ≡ true)
                  (apart s secret (sym made ∙ text_eq→eq _ _ same_mac)) right)
        ]

    pub sound-verified :
        (now : Time) (cache : Option (List Entry)) (id : Uuid) (hash secret : Text)
        → IsSound e cache
        → verified e now cache id hash secret ≡ true
        → e.bcrypt_matches hash secret ≡ true
    unfolding verified
    sound-verified now none id hash secret sound hit = cc hit
    sound-verified now (some entries) id hash secret sound hit =
        found-matches now entries id hash secret sound.0 hit
