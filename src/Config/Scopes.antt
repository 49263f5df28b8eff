-- ===== src/Config/Scopes.antt =====
-- What the check of the scope mapping buys: one capability's scope does not grant another.
use github_webhook_monitor.Prelude.{
  String, true, false, not, List, [], ◌∷◌, length, ◌≤◌, ◌≡◌, ◌≢◌, refl, sym, subst, ◌∙◌, str_eq,
  str_in, is_blank, strip, arith, eq_iff, Bool-cases, inl, inr, All, not-false, ap₂, subst₂, ==_iff,
}
use github_webhook_monitor.Errors.{
  ok, err, bind-ok, raise_if, raise_if-ok, ok-injective, value_error, insufficient_management_scope,
}
use github_webhook_monitor.Domain.Management.{
  ManagementPrincipal, ManagementScopePolicy, scope_for, authentication_method_oidc_jwt,
  management_capabilities, diagnostics_read, recovery_read, recovery_execute,
}
use github_webhook_monitor.Security.Authorization.{authorize_management_capability}
use github_webhook_monitor.Security.Authorization.Grants.{authorize-refused_iff}
use github_webhook_monitor.Config.{normalized_scopes, set_of, validate_management_scope_mapping}

-- No text occurs twice.
abbrev pub NoDup : List String → Type 0
NoDup [] = Unit
NoDup (s ∷ ss) = (str_in s ss ≡ false) × NoDup ss

length-set_of : (values : List String) → length (set_of values) ≤ length values
unfolding set_of
length-set_of [] = omega arith
length-set_of (v ∷ values) = ground (arith, length-set_of values)

set_of-NoDup : (values : List String) → length (set_of values) ≡ length values → NoDup values
unfolding set_of
set_of-NoDup [] h = tt
set_of-NoDup (v ∷ values) h = elim (Bool-cases (str_in v values)) [
  | inl i ↦ absurd (ground (arith, i, length-set_of values))
  | inr n ↦ (n, set_of-NoDup values (ground (arith, n)))
]

normalized_scopes-ok :
    (values : List String) {out : List String}
    → normalized_scopes values ≡ ok out
    → (out ≡ values) × All (λ v. is_blank v ≡ false) values
unfolding normalized_scopes
normalized_scopes-ok [] h = (sym (ok-injective h), tt)
normalized_scopes-ok (v ∷ values) {out} h =
    let (u, set, h1) = bind-ok (raise_if (is_blank v) value_error) _ h in
    let (u', trimmed, h2) = bind-ok (raise_if (not (str_eq (strip v) v)) value_error) _ h1 in
    let (rest, later, h3) = bind-ok (normalized_scopes values) _ h2 in
    let (same, all) = normalized_scopes-ok values later in
    (
      sym (ok-injective h3)
          ∙ ap₂ (λ a b. a ∷ b) ((eq_iff (strip v) v).0 (not-false _ (raise_if-ok _ _ trimmed)))
              same,
      (raise_if-ok _ _ set, all),
    )

abbrev pub scopes_of : ManagementScopePolicy → List String
scopes_of policy =
    policy.full_management_scope ∷ policy.diagnostics_read_scope ∷ policy.recovery_read_scope
    ∷ policy.recovery_execute_scope ∷ []

-- The check of the mapping passes only if no scope is blank and no two are the same.
pub validate_management_scope_mapping-NoDup :
    (policy : ManagementScopePolicy)
    → validate_management_scope_mapping policy ≡ ok tt
    → NoDup (scopes_of policy) × All (λ v. is_blank v ≡ false) (scopes_of policy)
unfolding validate_management_scope_mapping
validate_management_scope_mapping-NoDup policy h =
    let (values, normalized, checked) = bind-ok (normalized_scopes (scopes_of policy)) _ h in
    let (same, set) = normalized_scopes-ok (scopes_of policy) normalized in
    (
      subst NoDup same
          (set_of-NoDup values ((==_iff _ _).0 (not-false _ (raise_if-ok _ _ checked)))),
      set,
    )

str_eq_sym : (a b : String) → str_eq a b ≡ false → str_eq b a ≡ false
str_eq_sym a b h = ground (arith, eq_iff a b, eq_iff b a)

-- Which scope belongs to which capability.
data ScopeOf (policy : ManagementScopePolicy) : String → String → Type 0 where
  diagnostics : ScopeOf policy diagnostics_read policy.diagnostics_read_scope
  reading : ScopeOf policy recovery_read policy.recovery_read_scope
  execution : ScopeOf policy recovery_execute policy.recovery_execute_scope

module _ (policy : ManagementScopePolicy) where
  scope_for-ScopeOf :
      (capability : String) {s : String}
      → scope_for policy capability ≡ ok s
      → ScopeOf policy capability s
  unfolding scope_for
  scope_for-ScopeOf c h = elim (Bool-cases (str_eq c diagnostics_read)) [
    | inl e ↦
        subst₂ (ScopeOf policy) (sym ((eq_iff c _).0 e)) (ok-injective (ground (arith, e)))
          diagnostics
    | inr n ↦ elim (Bool-cases (str_eq c recovery_read)) [
      | inl e ↦
          subst₂ (ScopeOf policy) (sym ((eq_iff c _).0 e)) (ok-injective (ground (arith, n, e)))
            reading
      | inr n' ↦ elim (Bool-cases (str_eq c recovery_execute)) [
        | inl e ↦
            subst₂ (ScopeOf policy) (sym ((eq_iff c _).0 e))
              (ok-injective (ground (arith, n, n', e))) execution
        | inr n'' ↦ absurd (ground (arith, n, n', n''))
      ]
    ]
  ]

  scopes_differ :
      NoDup (scopes_of policy)
      → {c c' s s' : String} → ScopeOf policy c s
      → ScopeOf policy c' s'
      → c ≢ c'
      → str_eq s' s ≡ false
  scopes_differ n diagnostics diagnostics d = absurd (d refl)
  scopes_differ n diagnostics reading d = str_eq_sym _ _ (ground (arith, n.1.0))
  scopes_differ n diagnostics execution d = str_eq_sym _ _ (ground (arith, n.1.0))
  scopes_differ n reading diagnostics d = ground (arith, n.1.0)
  scopes_differ n reading reading d = absurd (d refl)
  scopes_differ n reading execution d = str_eq_sym _ _ (ground (arith, n.1.1.0))
  scopes_differ n execution diagnostics d = ground (arith, n.1.0)
  scopes_differ n execution reading d = ground (arith, n.1.1.0)
  scopes_differ n execution execution d = absurd (d refl)

  not_full :
      NoDup (scopes_of policy)
      → {c s : String} → ScopeOf policy c s
      → str_eq policy.full_management_scope s ≡ false
  not_full n diagnostics = ground (arith, n.0)
  not_full n reading = ground (arith, n.0)
  not_full n execution = ground (arith, n.0)

  -- Under a mapping that passes the check, a principal of an access token whose only scope is the
  -- one of a capability is refused every other capability.
  pub other_capability_refused :
      (p : ManagementPrincipal) (c c' s s' : String)
      → validate_management_scope_mapping policy ≡ ok tt
      → p.authentication_method ≡ authentication_method_oidc_jwt
      → p.scopes ≡ s ∷ []
      → scope_for policy c ≡ ok s
      → scope_for policy c' ≡ ok s'
      → str_in c' management_capabilities ≡ true
      → c ≢ c'
      → authorize_management_capability p c' policy ≡ err insufficient_management_scope
  other_capability_refused p c c' s s' valid m scopes h h' known d =
      let (n, set) = validate_management_scope_mapping-NoDup policy valid in
      let of = scope_for-ScopeOf c h in
      let other = scopes_differ n of (scope_for-ScopeOf c' h') d in
      (authorize-refused_iff p c' policy s' m known h').1
        (rw (scopes, other) refl, rw (scopes, not_full n of) refl)
