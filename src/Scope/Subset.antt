-- ===== src/Scope/Subset.antt =====
-- What the scope tests decide.
use shieldgate.Base.{
  ◌≡◌, refl, subst, ◌↔◌, inl, inr, true, List, [], ◌∷◌, Text, text_eq, arith, Any, All, Bool-cases,
  text_eq_self, text_eq→eq,
}
use shieldgate.Scope.{contains, all_in, parse_scope, scope_is_subset}

-- A scope is among the entries of a list.
abbrev pub Has : Text → List Text → Type 0
Has s xs = Any (λ x. x ≡ s) xs

pub contains→Has : (xs : List Text) (s : Text) → contains xs s ≡ true → Has s xs
unfolding contains
contains→Has [] s h = cc
contains→Has (x ∷ xs) s h = elim (Bool-cases (text_eq x s)) [
  | inl t ↦ inl (text_eq→eq x s t)
  | inr t ↦ inr (contains→Has xs s (rw t at h))
]

pub Has→contains : (xs : List Text) (s : Text) → Has s xs → contains xs s ≡ true
unfolding contains
Has→contains [] s h = absurd h
Has→contains (x ∷ xs) s (inl e) = rw (e, text_eq_self s)
Has→contains (x ∷ xs) s (inr h) = ground (arith, Has→contains xs s h)

-- Every scope of the one list is in the other.
abbrev pub Within : List Text → List Text → Type 0
Within xs ys = All (λ s. Has s ys) xs

all_in→Within : (ys xs : List Text) → all_in ys xs ≡ true → Within xs ys
unfolding all_in
all_in→Within ys [] h = tt
all_in→Within ys (x ∷ xs) h = (contains→Has ys x (ground arith), all_in→Within ys xs (ground arith))

Within→all_in : (ys xs : List Text) → Within xs ys → all_in ys xs ≡ true
unfolding all_in
Within→all_in ys [] h = refl
Within→all_in ys (x ∷ xs) h = ground (arith, Has→contains ys x h.0, Within→all_in ys xs h.1)

-- A requested scope passes the subset test exactly when each of its words is a word of the allowed
-- scope.
pub scope_is_subset_iff :
    (requested allowed : Text)
    → (scope_is_subset requested allowed ≡ true)
      ↔ Within (parse_scope requested) (parse_scope allowed)
unfolding scope_is_subset
scope_is_subset_iff requested allowed = (
  all_in→Within (parse_scope allowed) (parse_scope requested),
  Within→all_in (parse_scope allowed) (parse_scope requested),
)

pub Has-Within : (s : Text) (xs ys : List Text) → Has s xs → Within xs ys → Has s ys
Has-Within s [] ys h w = absurd h
Has-Within s (x ∷ xs) ys (inl e) w = subst (λ t. Has t ys) e w.0
Has-Within s (x ∷ xs) ys (inr h) w = Has-Within s xs ys h w.1

pub Within-trans : (xs ys zs : List Text) → Within xs ys → Within ys zs → Within xs zs
Within-trans [] ys zs h k = tt
Within-trans (x ∷ xs) ys zs h k = (Has-Within x ys zs h.0 k, Within-trans xs ys zs h.1 k)

Within-weaken : (x : Text) (xs ys : List Text) → Within xs ys → Within xs (x ∷ ys)
Within-weaken x [] ys h = tt
Within-weaken x (y ∷ xs) ys h = (inr h.0, Within-weaken x xs ys h.1)

pub Within-refl : (xs : List Text) → Within xs xs
Within-refl [] = tt
Within-refl (x ∷ xs) = (inl refl, Within-weaken x xs xs (Within-refl xs))

-- Narrowing twice never widens: the subset test is transitive.
pub scope_is_subset_trans :
    (a b c : Text)
    → scope_is_subset a b ≡ true
    → scope_is_subset b c ≡ true
    → scope_is_subset a c ≡ true
scope_is_subset_trans a b c h k =
    (scope_is_subset_iff a c).1
      (Within-trans _ _ _ ((scope_is_subset_iff a b).0 h) ((scope_is_subset_iff b c).0 k))
