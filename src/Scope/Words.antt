-- ===== src/Scope/Words.antt =====
-- Splitting a scope text into words, and joining words with spaces.
use mathlib.Core.List.{reverse, reverse_aux, reverse-reverse, append-nil}
use shieldgate.Base.{
  ◌≡◌, refl, sym, ap, ◌∙◌, ◌≢◌, true, false, List, [], ◌∷◌, ◌++◌, Text, All, is_cons, is_space,
  fields, fields_from, close_field, join_space, Bool-cases, inl, inr, ℕ, trim_space, ◌⊎◌, false,
}
use shieldgate.Model.{Client, ok, err, invalid_scope}
use shieldgate.Scope.{parse_scope, scope_is_subset, validate_scope_for_client}
use shieldgate.Scope.Subset.{Within, scope_is_subset_iff}

abbrev pub NoSpace : Text → Type 0
NoSpace x = All (λ c. is_space c ≡ false) x

-- A scope token as `strings.Fields` returns it.
abbrev pub IsWord : Text → Type 0
IsWord x = (is_cons x ≡ true) × NoSpace x

close_field-cons :
    (cur : Text) (rest : List Text) → cur ≢ [] → close_field cur rest ≡ reverse cur ∷ rest
close_field-cons [] rest h = absurd (h refl)
close_field-cons (c ∷ cur) rest h = refl

reverse-ne-nil : (x : Text) → is_cons x ≡ true → reverse x ≢ []
reverse-ne-nil [] h e = cc
reverse-ne-nil (c ∷ x) h e = cc (ap reverse e, reverse-reverse (c ∷ x))

close_field-reverse :
    (x : Text) (rest : List Text) → is_cons x ≡ true → close_field (reverse x) rest ≡ x ∷ rest
close_field-reverse x rest h =
    close_field-cons (reverse x) rest (reverse-ne-nil x h) ∙ ap (λ y. y ∷ rest) (reverse-reverse x)

fields_from-append :
    (cur x rest : Text)
    → NoSpace x
    → fields_from cur (x ++ rest) ≡ fields_from (reverse_aux x cur) rest
unfolding fields
fields_from-append cur [] rest h = refl
fields_from-append cur (c ∷ x) rest h = rw h.0 (fields_from-append (c ∷ cur) x rest h.1)

-- Joining words and splitting again gives the words.
pub fields-join_space : (ws : List Text) → All IsWord ws → fields (join_space ws) ≡ ws
unfolding fields join_space
fields-join_space [] h = refl
fields-join_space (x ∷ []) h =
    ap (fields_from []) (sym (append-nil x))
    ∙ fields_from-append [] x [] h.0.1
    ∙ close_field-reverse x [] h.0.0
fields-join_space (x ∷ (y ∷ ys)) h =
    fields_from-append [] x (32 ∷ join_space (y ∷ ys)) h.0.1
    ∙ close_field-reverse x (fields (join_space (y ∷ ys))) h.0.0
    ∙ ap (λ r. x ∷ r) (fields-join_space (y ∷ ys) h.1)

pub NoSpace-reverse_aux : (x cur : Text) → NoSpace x → NoSpace cur → NoSpace (reverse_aux x cur)
NoSpace-reverse_aux [] cur h k = k
NoSpace-reverse_aux (c ∷ x) cur h k = NoSpace-reverse_aux x (c ∷ cur) h.1 (h.0, k)

is_cons-reverse : (c : ℕ) (x : Text) → is_cons (reverse (c ∷ x)) ≡ true
is_cons-reverse c x = go (reverse (c ∷ x)) (reverse-ne-nil (c ∷ x) refl)
  where
    go : (l : Text) → l ≢ [] → is_cons l ≡ true
    go [] h = absurd (h refl)
    go (a ∷ l) h = refl

close_field-IsWord :
    (cur : Text) (rest : List Text)
    → NoSpace cur
    → All IsWord rest
    → All IsWord (close_field cur rest)
close_field-IsWord [] rest h k = k
close_field-IsWord (c ∷ cur) rest h k =
    ((is_cons-reverse c cur, NoSpace-reverse_aux (c ∷ cur) [] h tt), k)

fields_from-IsWord : (cur s : Text) → NoSpace cur → All IsWord (fields_from cur s)
unfolding fields
fields_from-IsWord cur [] h = close_field-IsWord cur [] h tt
fields_from-IsWord cur (c ∷ s) h = elim (Bool-cases (is_space c)) [
  | inl t ↦ rw t (close_field-IsWord cur (fields_from [] s) h (fields_from-IsWord [] s tt))
  | inr t ↦ rw t (fields_from-IsWord (c ∷ cur) s (t, h))
]

-- Every word of a scope is a non-empty text without spaces.
pub fields-IsWord : (s : Text) → All IsWord (fields s)
unfolding fields
fields-IsWord s = fields_from-IsWord [] s tt

-- Splitting a scope, joining its words with spaces and splitting again gives the same words.
pub parse_scope-join : (s : Text) → parse_scope (join_space (parse_scope s)) ≡ parse_scope s
unfolding parse_scope
parse_scope-join s = fields-join_space (fields s) (fields-IsWord s)

-- A blank request is granted the client's registered scopes; another one is granted in its own
-- words if they are all registered, and refused as `ErrInvalidScope` if they are not.
pub validate_scope_for_client_lem :
    (client : Client) (requested : Text)
    → let registered = join_space client.scopes in
      let fits = Within (parse_scope requested) (parse_scope registered) in
      let answer = validate_scope_for_client client requested in
      let blank = is_cons (trim_space requested) ≡ false in
      (blank × (answer ≡ ok registered))
      ⊎ ((¬ blank) × fits × (answer ≡ ok (join_space (parse_scope requested))))
      ⊎ ((¬ blank) × (¬ fits) × (answer ≡ err invalid_scope))
unfolding validate_scope_for_client
validate_scope_for_client_lem client requested =
    let words = scope_is_subset_iff requested (join_space client.scopes) in
    elim (Bool-cases (is_cons (trim_space requested))) [
      | inr blank ↦ inl (blank, rw blank refl)
      | inl full ↦ elim (Bool-cases (scope_is_subset requested (join_space client.scopes))) [
        | inl fits ↦ inr (inl ((λ b. cc), words.0 fits, rw (full, fits) refl))
        | inr misses ↦ inr (inr ((λ b. cc), (λ w. cc (words.1 w)), rw (full, misses) refl))
      ]
    ]
