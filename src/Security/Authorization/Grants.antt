-- ===== src/Security/Authorization/Grants.antt =====
-- Which capabilities a principal is granted.
use github_webhook_monitor.Prelude.{
  ◌↔◌, String, true, false, none, some, [], ◌∷◌, str_eq, str_in, ◌≡◌, refl, ◌⊎◌, inl, inr, arith,
  eq_iff, Bool-cases,
}
use github_webhook_monitor.Errors.{Exn, ok, err, insufficient_management_scope}
use github_webhook_monitor.Domain.Management.{
  ManagementPrincipal, ManagementScopePolicy, ManagementAuthorization, management_capabilities,
  authentication_method_management_bearer, authentication_method_oidc_jwt, diagnostics_read,
  recovery_read, recovery_execute, authorization_method_oidc_scope,
  authorization_method_shared_management_token, scope_for,
}
use github_webhook_monitor.Security.Authorization.{
  oidc_authorization, authorize_management_capability,
}

-- Why an authorization was granted.
pub data Grant (p : ManagementPrincipal) (policy : ManagementScopePolicy)
    (a : ManagementAuthorization) : Type 0 where
  by_shared_token :
      p.authentication_method ≡ authentication_method_management_bearer
      → a.authorization_method ≡ authorization_method_shared_management_token
      → a.matched_scope ≡ none
      → Grant p policy a
  by_scope :
      (s : String)
      → p.authentication_method ≡ authentication_method_oidc_jwt
      → a.authorization_method ≡ authorization_method_oidc_scope
      → a.matched_scope ≡ some s
      → str_in s p.scopes ≡ true
      → (scope_for policy a.capability ≡ ok s) ⊎ (s ≡ policy.full_management_scope)
      → Grant p policy a

not_among_three :
    (c x y z : String)
    → str_in c (x ∷ y ∷ z ∷ []) ≡ true
    → str_eq c x ≡ false
    → str_eq c y ≡ false
    → str_eq c z ≡ false
    → ⊥
not_among_three c x y z h a b d = ground arith

pub scope_for_known :
    (policy : ManagementScopePolicy) (capability : String)
    → str_in capability management_capabilities ≡ true
    → (s : String) × (scope_for policy capability ≡ ok s)
unfolding scope_for
scope_for_known policy c h = elim (Bool-cases (str_eq c diagnostics_read)) [
  | inl e ↦ (policy.diagnostics_read_scope, rw e)
  | inr n ↦ elim (Bool-cases (str_eq c recovery_read)) [
    | inl e ↦ (policy.recovery_read_scope, rw (n, e))
    | inr n' ↦ elim (Bool-cases (str_eq c recovery_execute)) [
      | inl e ↦ (policy.recovery_execute_scope, rw (n, n', e))
      | inr n'' ↦
          absurd (not_among_three c diagnostics_read recovery_read recovery_execute h n n' n'')
    ]
  ]
]

module _ (p : ManagementPrincipal) (capability : String) (policy : ManagementScopePolicy)
    (a : ManagementAuthorization) where
  oidc_authorization-Grant :
      (required : String)
      → p.authentication_method ≡ authentication_method_oidc_jwt
      → scope_for policy capability ≡ ok required
      → oidc_authorization p capability policy required ≡ ok a
      → (a.principal ≡ p) × (a.capability ≡ capability) × Grant p policy a
  unfolding oidc_authorization
  oidc_authorization-Grant required m e h = elim (Bool-cases (str_in required p.scopes)) [
    | inl i ↦ (
      ground arith,
      ground arith,
      by_scope required m (ground arith) (ground arith) i (inl (ground arith)),
    )
    | inr n ↦ elim (Bool-cases (str_in policy.full_management_scope p.scopes)) [
      | inl i ↦ (
        ground arith,
        ground arith,
        by_scope policy.full_management_scope m (ground arith) (ground arith) i (inr refl),
      )
      | inr n' ↦ absurd (ground arith)
    ]
  ]

  -- An authorization that is granted names the principal and the capability that were asked for,
  -- and rests on the shared token, or on a scope that the principal holds and that is the one of
  -- this capability or the one of full management.
  pub authorize-Grant :
      authorize_management_capability p capability policy ≡ ok a
      → (a.principal ≡ p) × (a.capability ≡ capability) × Grant p policy a
  unfolding authorize_management_capability
  authorize-Grant h = elim (Bool-cases (str_in capability management_capabilities)) [
    | inr n ↦ absurd (ground arith)
    | inl known ↦
        elim (Bool-cases (str_eq p.authentication_method authentication_method_management_bearer)) [
          | inl b ↦ (
            ground arith,
            ground arith,
            by_shared_token ((eq_iff p.authentication_method _).0 b) (ground arith) (ground arith),
          )
          | inr b ↦
              elim (Bool-cases (str_eq p.authentication_method authentication_method_oidc_jwt)) [
                | inr o ↦ absurd (ground arith)
                | inl o ↦
                    let (s, e) = scope_for_known policy capability known in
                    oidc_authorization-Grant s ((eq_iff p.authentication_method _).0 o) e
                      (ground (arith, e))
              ]
        ]
  ]

module _ (p : ManagementPrincipal) (capability : String) (policy : ManagementScopePolicy) where
  -- A principal of an access token is refused one of the three capabilities exactly if it holds
  -- neither the scope of that capability nor the one of full management.
  pub authorize-refused_iff :
      (required : String)
      → p.authentication_method ≡ authentication_method_oidc_jwt
      → str_in capability management_capabilities ≡ true
      → scope_for policy capability ≡ ok required
      → (authorize_management_capability p capability policy ≡ err insufficient_management_scope)
        ↔ ((str_in required p.scopes ≡ false)
            × (str_in policy.full_management_scope p.scopes ≡ false))
  unfolding authorize_management_capability oidc_authorization
  authorize-refused_iff required m known e = rw (m, known, e) (λ h. ground arith, λ h. ground arith)

  -- For the three capabilities of the program the only error is the refusal.
  pub authorize_errors :
      (x : Exn)
      → str_in capability management_capabilities ≡ true
      → authorize_management_capability p capability policy ≡ err x
      → x ≡ insufficient_management_scope
  unfolding authorize_management_capability oidc_authorization
  authorize_errors x known h =
      let (s, e) = scope_for_known policy capability known in ground (arith, e)
