-- ===== src/Base/Rows.antt =====
-- Tables as lists of rows: what SQL statements do to them, and predicates on all rows.
use mathlib.Core.Path.{◌≡◌, refl, subst, sym}
use mathlib.Core.Logic.{◌⊎◌, inl, inr}
use mathlib.Core.Bool.{Bool, true, false}
use mathlib.Core.List.{List, [], ◌∷◌}
use Prim.Native.Nat.{ℕ, zero, suc}
use native.Mathlib.Omega.{arith}
use shieldgate.Base.Tests.{if◌then◌else◌, Bool-cases}

module _ {ℓ} {A : Type ℓ} where
  abbrev pub length : List A → ℕ
  length [] = 0
  length (x ∷ xs) = suc (length xs)

  -- The list has an entry.
  abbrev pub is_cons : List A → Bool
  is_cons [] = false
  is_cons (x ∷ xs) = true

  pub is_cons-eq-false : (xs : List A) → is_cons xs ≡ false → xs ≡ []
  is_cons-eq-false [] h = refl
  is_cons-eq-false (x ∷ xs) h = cc h

module _ {A : Type 0} where
  -- Every row has the property.
  abbrev pub All : (A → Type 0) → List A → Type 0
  All P [] = Unit
  All P (x ∷ xs) = P x × All P xs

  -- Some row has the property.
  abbrev pub Any : (A → Type 0) → List A → Type 0
  Any P [] = ⊥
  Any P (x ∷ xs) = P x ⊎ Any P xs

  -- `SELECT … WHERE p`.
  unfoldable pub select_rows : (A → Bool) → List A → List A
  select_rows p [] = []
  select_rows p (x ∷ xs) = let rest = select_rows p xs in if p x then x ∷ rest else rest

  -- `UPDATE … SET f WHERE p`.
  unfoldable pub update_rows : (A → Bool) → (A → A) → List A → List A
  update_rows p f [] = []
  update_rows p f (x ∷ xs) = (if p x then f x else x) ∷ update_rows p f xs

  -- `DELETE … WHERE p`.
  unfoldable pub delete_rows : (A → Bool) → List A → List A
  delete_rows p [] = []
  delete_rows p (x ∷ xs) = let rest = delete_rows p xs in if p x then rest else x ∷ rest

  pub All-delete_rows : (p : A → Bool) (xs : List A) → All (λ x. p x ≡ false) (delete_rows p xs)
  unfolding delete_rows
  All-delete_rows p [] = tt
  All-delete_rows p (x ∷ xs) = ground (arith, All-delete_rows p xs)

  -- A row of the table has what every row has.
  pub All-Any : (P Q : A → Type 0) (xs : List A) → All P xs → Any Q xs → (x : A) × P x × Q x
  All-Any P Q [] a h = absurd h
  All-Any P Q (x ∷ xs) a (inl q) = (x, a.0, q)
  All-Any P Q (x ∷ xs) a (inr h) = All-Any P Q xs a.1 h

  -- Deleting, updating and inserting rows outside a selection leave the selection as it is.
  pub select_rows-delete_rows :
      (q p : A → Bool) (xs : List A)
      → ((x : A) → q x ≡ true → p x ≡ false)
      → select_rows q (delete_rows p xs) ≡ select_rows q xs
  unfolding select_rows delete_rows
  select_rows-delete_rows q p [] h = refl
  select_rows-delete_rows q p (x ∷ xs) h = ground (arith, h x, select_rows-delete_rows q p xs h)

  pub select_rows-update_rows :
      (q p : A → Bool) (f : A → A) (xs : List A)
      → ((x : A) → q x ≡ true → p x ≡ false)
      → ((x : A) → q (f x) ≡ q x)
      → select_rows q (update_rows p f xs) ≡ select_rows q xs
  unfolding select_rows update_rows
  select_rows-update_rows q p f [] h k = refl
  select_rows-update_rows q p f (x ∷ xs) h k =
      ground (arith, h x, k x, select_rows-update_rows q p f xs h k)

  pub select_rows-cons :
      (q : A → Bool) (x : A) (xs : List A) → q x ≡ false → select_rows q (x ∷ xs) ≡ select_rows q xs
  unfolding select_rows
  select_rows-cons q x xs h = ground arith

  -- An update whose result no longer matches leaves no row that matches.
  pub All-update_rows :
      (p : A → Bool) (f : A → A) (xs : List A)
      → ((x : A) → p (f x) ≡ false)
      → All (λ x. p x ≡ false) (update_rows p f xs)
  unfolding update_rows
  All-update_rows p f [] h = tt
  All-update_rows p f (x ∷ xs) h = ground (arith, h x, All-update_rows p f xs h)

  pub All-select_rows :
      (p : A → Bool) (xs : List A)
      → All (λ x. (p x ≡ true) × Any (λ y. y ≡ x) xs) (select_rows p xs)
  unfolding select_rows
  All-select_rows p [] = tt
  All-select_rows p (x ∷ xs) = elim (Bool-cases (p x)) [
    | inl t ↦ rw t ((t, inl refl), weaken (select_rows p xs) (All-select_rows p xs))
    | inr t ↦ rw t (weaken (select_rows p xs) (All-select_rows p xs))
  ]
    where
      weaken :
          (ys : List A)
          → All (λ y. (p y ≡ true) × Any (λ z. z ≡ y) xs) ys
          → All (λ y. (p y ≡ true) × Any (λ z. z ≡ y) (x ∷ xs)) ys
      weaken [] h = tt
      weaken (y ∷ ys) h = ((h.0.0, inr h.0.1), weaken ys h.1)

  -- Nothing is selected if nothing matches.
  pub select_rows_none :
      (p : A → Bool) (xs : List A) → All (λ x. p x ≡ false) xs → select_rows p xs ≡ []
  unfolding select_rows
  select_rows_none p [] h = refl
  select_rows_none p (x ∷ xs) h = ground (arith, select_rows_none p xs h.1)

  pub Any-All : (P : A → Type 0) (xs : List A) (x : A) → All P xs → Any (λ y. y ≡ x) xs → P x
  Any-All P [] x a h = absurd h
  Any-All P (y ∷ xs) x a (inl e) = subst P e a.0
  Any-All P (y ∷ xs) x a (inr h) = Any-All P xs x a.1 h

  pub All-delete_rows_keep :
      (P : A → Type 0) (p : A → Bool) (xs : List A) → All P xs → All P (delete_rows p xs)
  unfolding delete_rows
  All-delete_rows_keep P p [] h = tt
  All-delete_rows_keep P p (x ∷ xs) h = elim (Bool-cases (p x)) [
    | inl t ↦ rw t (All-delete_rows_keep P p xs h.1)
    | inr t ↦ rw t (h.0, All-delete_rows_keep P p xs h.1)
  ]

  pub Any-intro : (P : A → Type 0) (xs : List A) (x : A) → Any (λ y. y ≡ x) xs → P x → Any P xs
  Any-intro P [] x h p = h
  Any-intro P (y ∷ xs) x (inl e) p = inl (subst P (sym e) p)
  Any-intro P (y ∷ xs) x (inr h) p = inr (Any-intro P xs x h p)

module _ {ℓ} {A : Type ℓ} where
  abbrev pub take : ℕ → List A → List A
  take zero xs = []
  take (suc n) [] = []
  take (suc n) (x ∷ xs) = x ∷ take n xs

  abbrev pub drop : ℕ → List A → List A
  drop zero xs = xs
  drop (suc n) [] = []
  drop (suc n) (x ∷ xs) = drop n xs

  abbrev pub get_or : List A → ℕ → A → A
  get_or [] i d = d
  get_or (x ∷ xs) zero d = x
  get_or (x ∷ xs) (suc i) d = get_or xs i d
