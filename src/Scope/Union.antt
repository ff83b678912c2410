-- ===== src/Scope/Union.antt =====
-- Lists of scopes without repetition.
use shieldgate.Base.{
  ◌≡◌, refl, subst, ◌⊎◌, inl, inr, false, List, [], ◌∷◌, ◌++◌, Text, arith, ◌↔◌, Bool-cases,
  if◌then◌else◌, text_eq, text_eq→eq, text_eq_self,
}
use shieldgate.Scope.{contains, add_scopes, union_scopes}
use shieldgate.Scope.Subset.{Has, contains→Has}

-- No entry occurs twice.
abbrev pub Distinct : List Text → Type 0
Distinct [] = Unit
Distinct (x ∷ xs) = (contains xs x ≡ false) × Distinct xs

Has-append : (s : Text) (xs ys : List Text) → Has s (xs ++ ys) ↔ (Has s xs ⊎ Has s ys)
Has-append s [] ys = (inr, λ h. elim h [ inl a ↦ absurd a | inr b ↦ b ])
Has-append s (x ∷ xs) ys =
    let (out, back) = Has-append s xs ys in
    (
      λ h. elim h [
        | inl e ↦ inl (inl e)
        | inr r ↦ elim (out r) [ inl a ↦ inl (inr a) | inr b ↦ inr b ]
      ],
      λ h. elim h [
        | inl a ↦ elim a [ inl e ↦ inl e | inr r ↦ inr (back (inl r)) ]
        | inr b ↦ inr (back (inr b))
      ],
    )

contains-snoc :
    (xs : List Text) (y s : Text)
    → contains xs s ≡ false
    → text_eq y s ≡ false
    → contains (xs ++ y ∷ []) s ≡ false
unfolding contains
contains-snoc [] y s h k = ground arith
contains-snoc (x ∷ xs) y s h k = ground (arith, contains-snoc xs y s)

contains-false : (xs : List Text) (x s : Text) → contains (x ∷ xs) s ≡ false → text_eq x s ≡ false
unfolding contains
contains-false xs x s h = ground arith

contains_tail : (xs : List Text) (x s : Text) → contains (x ∷ xs) s ≡ false → contains xs s ≡ false
unfolding contains
contains_tail xs x s h = ground arith

text_eq_sym : (s t : Text) → text_eq s t ≡ false → text_eq t s ≡ false
text_eq_sym s t h = elim (Bool-cases (text_eq t s)) [
  | inl e ↦ absurd (cc (text_eq→eq t s e, text_eq_self s))
  | inr e ↦ e
]

Distinct-snoc :
    (xs : List Text) (y : Text) → Distinct xs → contains xs y ≡ false → Distinct (xs ++ y ∷ [])
unfolding contains
Distinct-snoc [] y d h = (refl, tt)
Distinct-snoc (x ∷ xs) y d h = (
  contains-snoc xs y x d.0 (text_eq_sym x y (contains-false xs x y h)),
  Distinct-snoc xs y d.1 (contains_tail xs x y h),
)

-- One round of the loops.
abbrev adds : List Text → Text → List Text
adds out s = if contains out s then out else out ++ s ∷ []

adds-Distinct : (out : List Text) (s : Text) → Distinct out → Distinct (adds out s)
adds-Distinct out s d = elim (Bool-cases (contains out s)) [
  | inl t ↦ rw t d
  | inr t ↦ rw t (Distinct-snoc out s d t)
]

Has-adds : (out : List Text) (s t : Text) → Has t (adds out s) ↔ (Has t out ⊎ (s ≡ t))
Has-adds out s t = elim (Bool-cases (contains out s)) [
  | inl c ↦
      rw c
        (inl, λ h. elim h [ inl a ↦ a | inr e ↦ subst (λ x. Has x out) e (contains→Has out s c) ])
  | inr c ↦
      let (to, from) = Has-append t out (s ∷ []) in
      rw c (
        λ h. elim (to h) [ inl a ↦ inl a | inr b ↦ elim b [ inl e ↦ inr e | inr z ↦ absurd z ] ],
        λ h. elim h [ inl a ↦ from (inl a) | inr e ↦ from (inr (inl e)) ],
      )
]

add_scopes-Distinct : (out xs : List Text) → Distinct out → Distinct (add_scopes out xs)
unfolding add_scopes
add_scopes-Distinct out [] d = d
add_scopes-Distinct out (x ∷ xs) d = add_scopes-Distinct (adds out x) xs (adds-Distinct out x d)

Has-add_scopes :
    (out xs : List Text) (t : Text) → Has t (add_scopes out xs) ↔ (Has t out ⊎ Has t xs)
unfolding add_scopes
Has-add_scopes out [] t = (inl, λ h. elim h [ inl a ↦ a | inr z ↦ absurd z ])
Has-add_scopes out (x ∷ xs) t =
    let (to, from) = Has-add_scopes (adds out x) xs t in
    let (to_x, from_x) = Has-adds out x t in
    (
      λ h. elim (to h) [
        | inl a ↦ elim (to_x a) [ inl o ↦ inl o | inr e ↦ inr (inl e) ]
        | inr b ↦ inr (inr b)
      ],
      λ h. elim h [
        | inl o ↦ from (inl (from_x (inl o)))
        | inr b ↦ elim b [ inl e ↦ from (inl (from_x (inr e))) | inr r ↦ from (inr r) ]
      ],
    )

-- The union of two scope lists has the entries of both, each once.
pub union_scopes_lem :
    (a b : List Text)
    → Distinct (union_scopes a b) × ((t : Text) → Has t (union_scopes a b) ↔ (Has t a ⊎ Has t b))
unfolding union_scopes
union_scopes_lem a b = (
  add_scopes-Distinct (add_scopes [] a) b (add_scopes-Distinct [] a tt),
  λ t.
      let (to, from) = Has-add_scopes (add_scopes [] a) b t in
      let (to_a, from_a) = Has-add_scopes [] a t in
      (
        λ h. elim (to h) [
          | inl x ↦ elim (to_a x) [ inl z ↦ absurd z | inr y ↦ inl y ]
          | inr y ↦ inr y
        ],
        λ h. elim h [ inl x ↦ from (inl (from_a (inr x))) | inr y ↦ from (inr y) ],
      ),
)
