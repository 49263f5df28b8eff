-- ===== src/Config/Valid.antt =====
-- What a validated configuration guarantees.
use github_webhook_monitor.Prelude.{
  String, Bool, true, false, not, ◌&&◌, Option, none, some, List, is_none, is_some, str_length, ◌≤◌,
  ◌≡◌, refl, subst, arith, Bool-cases, inl, inr, is_blank, Option-cases,
}
use github_webhook_monitor.Errors.{
  Result, ok, bind-ok, raise_if, raise_if-ok, ok-injective, value_error,
}
use github_webhook_monitor.Security.Tokens.{min_management_api_token_length}
use github_webhook_monitor.Domain.Url.{ParsedUrl}
use github_webhook_monitor.Config.{
  Settings, ManagementAuthMode, shared_token, oidc_jwt, scope_policy, check_database, check_token,
  check_oidc, check_management, check_github, full_scope, validate_oidc_issuer,
  validate_management_scope_mapping, parse_allowed_jwt_algorithms, validate_runtime_configuration,
}

-- What redelivery and reconciliation need.
pub record GithubReady (s : Settings) : Type 0 where
  pub reconciliation_managed :
      s.github_reconciliation_enabled ≡ true → s.management_api_enabled ≡ true
  pub reconciliation_token :
      s.github_reconciliation_enabled ≡ true → is_some s.github_repository_webhook_token ≡ true
  pub redelivery_reconciles :
      s.github_redelivery_enabled ≡ true → s.github_reconciliation_enabled ≡ true
  pub redelivery_token :
      s.github_redelivery_enabled ≡ true → is_some s.github_repository_webhook_write_token ≡ true

implied : (a b : Bool) → (a && not b) ≡ false → a ≡ true → b ≡ true
implied a b h e = ground arith

implied_some :
    (a : Bool) (o : Option String) → (a && is_none o) ≡ false → a ≡ true → is_some o ≡ true
implied_some a o h e = ground arith

check_github-GithubReady : (s : Settings) → check_github s ≡ ok tt → GithubReady s
unfolding check_github
check_github-GithubReady s h =
    let (_, a, h1) =
      bind-ok
        (raise_if (s.github_reconciliation_enabled && not s.management_api_enabled) value_error) _
        h in
    let (_, b, h2) =
      bind-ok
        (raise_if (s.github_reconciliation_enabled && is_none s.github_repository_webhook_token)
          value_error)
        _ h1 in
    let (_, c, h3) =
      bind-ok (raise_if (s.github_redelivery_enabled && not s.management_api_enabled) value_error) _
        h2 in
    let (_, d, h4) =
      bind-ok
        (raise_if (s.github_redelivery_enabled && not s.github_reconciliation_enabled) value_error)
        _ h3 in
    record {
      reconciliation_managed = implied _ _ (raise_if-ok _ _ a);
      reconciliation_token = implied_some _ _ (raise_if-ok _ _ b);
      redelivery_reconciles = implied _ _ (raise_if-ok _ _ d);
      redelivery_token = implied_some _ _ (raise_if-ok _ _ h4);
    }

-- How the management API of validated settings authenticates.
pub data Managed (t : Settings) : Type 0 where
  disabled : t.management_api_enabled ≡ false → Managed t
  by_token :
      (token : String)
      → t.management_auth_mode ≡ shared_token
      → t.management_api_token ≡ some token
      → min_management_api_token_length ≤ str_length token
      → Managed t
  by_jwt :
      (issuer audience : String) (algorithms : List String)
      → t.management_auth_mode ≡ oidc_jwt
      → t.management_oidc_issuer ≡ some issuer
      → t.management_oidc_audience ≡ some audience
      → is_blank audience ≡ false
      → validate_management_scope_mapping (scope_policy t) ≡ ok tt
      → parse_allowed_jwt_algorithms t.management_oidc_allowed_algorithms ≡ ok algorithms
      → Managed t

token_length :
    (s : Settings) (token : String)
    → s.management_api_token ≡ some token
    → check_token s ≡ ok tt
    → min_management_api_token_length ≤ str_length token
unfolding check_token
token_length s token e h = ground (arith, e)

token_missing :
    (s : Settings)
    → s.management_auth_mode ≡ shared_token
    → s.management_api_token ≡ none
    → check_token s ≡ ok tt
    → s.management_api_enabled ≡ false
unfolding check_token
token_missing s m e h = ground (arith, m, e)

module _ (urlparse : String → Result ParsedUrl) where
  check_oidc-Managed :
      (s t : Settings) (issuer audience : Option String)
      → s.management_auth_mode ≡ oidc_jwt
      → s.management_oidc_issuer ≡ issuer
      → s.management_oidc_audience ≡ audience
      → check_oidc urlparse s issuer audience ≡ ok t
      → Managed t
  unfolding check_oidc
  check_oidc-Managed s t none audience m i a h = absurd (ground arith)
  check_oidc-Managed s t (some issuer) none m i a h = absurd (ground arith)
  check_oidc-Managed s t (some issuer) (some audience) m i a h =
      let (_, valid, h1) = bind-ok (validate_oidc_issuer urlparse issuer) _ h in
      let (_, set, h2) = bind-ok (raise_if (is_blank audience) value_error) _ h1 in
      let (full, scope, h3) =
        bind-ok
          (full_scope s.management_oidc_full_management_scope s.management_oidc_required_scope) _
          h2 in
      let (_, mapping, h4) =
        bind-ok
          (validate_management_scope_mapping
            (scope_policy (record s { management_oidc_full_management_scope = full })))
          _ h3 in
      let (algorithms, parsed, h5) =
        bind-ok (parse_allowed_jwt_algorithms s.management_oidc_allowed_algorithms) _ h4 in
      subst Managed (ok-injective h5)
        (by_jwt issuer audience algorithms m i a (raise_if-ok _ _ set) mapping parsed)

  check_management-Managed :
      (s t : Settings) (mode : ManagementAuthMode)
      → s.management_auth_mode ≡ mode
      → check_token s ≡ ok tt
      → check_management urlparse s mode ≡ ok t
      → Managed t
  unfolding check_management
  check_management-Managed s t shared_token m c h =
      subst Managed (ok-injective h) (elim (Option-cases s.management_api_token) [
        | inl e ↦ disabled (token_missing s m e c)
        | inr (token, e) ↦ by_token token m e (token_length s token e c)
      ])
  check_management-Managed s t oidc_jwt m c h = elim (Bool-cases s.management_api_enabled) [
    | inl e ↦ check_oidc-Managed s t _ _ m refl refl (ground (arith, e))
    | inr e ↦
        subst Managed (ok-injective {A = Settings} {a = s} {b = t} (ground (arith, e))) (disabled e)
  ]

  -- Settings that pass the validation are ready to run: redelivery only with reconciliation, and
  -- both only with the management API and their tokens; and the management API is off, or has a
  -- shared token of at least the minimum length, or an issuer, an audience that is not blank, a
  -- valid scope mapping and a list of algorithms that parses.
  pub validate_runtime_configuration-Managed :
      (s t : Settings)
      → validate_runtime_configuration urlparse s ≡ ok t
      → GithubReady t × Managed t
  unfolding validate_runtime_configuration
  validate_runtime_configuration-Managed s t h =
      let (_, database, h1) = bind-ok (check_database s) _ h in
      let (_, token, h2) = bind-ok (check_token s) _ h1 in
      let (settings, management, h3) =
        bind-ok (check_management urlparse s s.management_auth_mode) _ h2 in
      let (_, github, h4) = bind-ok (check_github settings) _ h3 in
      let same = ok-injective h4 in
      (
        subst GithubReady same (check_github-GithubReady settings github),
        subst Managed same
            (check_management-Managed s settings s.management_auth_mode refl token management),
      )
