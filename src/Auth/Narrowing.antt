-- ===== src/Auth/Narrowing.antt =====
-- The scope of a refresh: what the response names, and what `narrowScope` lets through.
use shieldgate.Base.{◌≡◌, sym, ap, subst, Bool, inl, inr, Text, arith, is_cons, Bool-cases}
use shieldgate.Model.{Uuid, ok, Client, TokenResponse}
use shieldgate.Scope.{parse_scope, scope_is_subset}
use shieldgate.Scope.Subset.{Within, Within-refl, scope_is_subset_iff}
use shieldgate.Effect.{Env, World}
use shieldgate.Effect.Inversion.{bind-eq-ok, pure-eq-ok}
use shieldgate.Auth.Claims.{AuthContext}
use shieldgate.Auth.Issue.{issue_tokens}
use shieldgate.Auth.Refresh.{narrowed_scope}

-- The response names the scope that was asked of `issueTokens`.
pub issue_tokens-scope :
    (e : Env) (tenant : Uuid) (client : Client) (user : Uuid) (scope : Text) (family : Uuid)
    (with_refresh with_id : Bool) (auth : AuthContext) (w : World) {response : TokenResponse}
    {w' : World}
    → issue_tokens e tenant client user scope family with_refresh with_id auth w ≡ (ok response, w')
    → response.scope ≡ scope
unfolding issue_tokens
issue_tokens-scope e tenant client user scope family with_refresh with_id auth w h =
    let (_, w₁, _, h₁) = bind-eq-ok _ _ w h in
    let (_, w₂, _, h₂) = bind-eq-ok _ _ w₁ h₁ in
    let (_, w₃, _, h₃) = bind-eq-ok _ _ w₂ h₂ in
    let (_, w₄, _, h₄) = bind-eq-ok _ _ w₃ h₃ in
    ap (λ (r : TokenResponse). r.scope) (sym (pure-eq-ok _ w₄ h₄).0)

-- The scope that a refresh settles on has only words of the scope that was granted.
pub narrowed_scope-Within :
    (granted requested : Text) {scope : Text}
    → narrowed_scope granted requested ≡ ok scope
    → Within (parse_scope scope) (parse_scope granted)
unfolding narrowed_scope
narrowed_scope-Within granted requested {scope} h = elim (Bool-cases (is_cons requested)) [
  | inr blank ↦
      subst (λ s. Within (parse_scope s) (parse_scope granted)) (ground arith)
        (Within-refl (parse_scope granted))
  | inl asked ↦ elim (Bool-cases (scope_is_subset requested granted)) [
    | inl fits ↦
        subst (λ s. Within (parse_scope s) (parse_scope granted)) (ground arith)
          ((scope_is_subset_iff requested granted).0 fits)
    | inr misses ↦ absurd (ground arith)
  ]
]
