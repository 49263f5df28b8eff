-- ===== src/Config/Database.antt =====
-- The database of validated settings.
use github_webhook_monitor.Prelude.{
  String, true, not, Option, none, some, is_blank, ◌≡◌, subst, arith, Bool-cases, Option-cases, inl,
  inr, startswith,
}
use github_webhook_monitor.Errors.{
  Result, ok, value_error, raise_if, bind-ok, raise_if-ok, ok-injective,
}
use github_webhook_monitor.Domain.Url.{ParsedUrl}
use github_webhook_monitor.Security.Algorithms.{parse_allowed_jwt_algorithms}
use github_webhook_monitor.Config.{
  Settings, postgresql, ManagementAuthMode, shared_token, oidc_jwt, scope_policy, check_database,
  check_token, check_github, check_oidc, check_management, full_scope, validate_oidc_issuer,
  validate_management_scope_mapping, validate_runtime_configuration,
}

-- The settings that the validator returns pass the check of the database again.
module _ (urlparse : String → Result ParsedUrl) where
  check_oidc-database :
      (s t : Settings) (issuer audience : Option String)
      → check_database s ≡ ok tt
      → check_oidc urlparse s issuer audience ≡ ok t
      → check_database t ≡ ok tt
  unfolding check_oidc check_database
  check_oidc-database s t none audience d h = absurd (ground arith)
  check_oidc-database s t (some issuer) none d h = absurd (ground arith)
  check_oidc-database s t (some issuer) (some audience) d h =
      let (u, valid, h1) = bind-ok (validate_oidc_issuer urlparse issuer) _ h in
      let (v, set, h2) = bind-ok (raise_if (is_blank audience) value_error) _ h1 in
      let (full, scope, h3) =
        bind-ok
          (full_scope s.management_oidc_full_management_scope s.management_oidc_required_scope) _
          h2 in
      let policy = scope_policy (record s { management_oidc_full_management_scope = full }) in
      let (x, mapping, h4) = bind-ok (validate_management_scope_mapping policy) _ h3 in
      let (algorithms, parsed, h5) =
        bind-ok (parse_allowed_jwt_algorithms s.management_oidc_allowed_algorithms) _ h4 in
      subst (λ x. check_database x ≡ ok tt) (ok-injective h5) d

  check_management-database :
      (s t : Settings) (mode : ManagementAuthMode)
      → check_database s ≡ ok tt
      → check_management urlparse s mode ≡ ok t
      → check_database t ≡ ok tt
  unfolding check_management
  check_management-database s t shared_token d h =
      subst (λ x. check_database x ≡ ok tt) (ok-injective h) d
  check_management-database s t oidc_jwt d h = elim (Bool-cases s.management_api_enabled) [
    | inl on ↦
        check_oidc-database s t s.management_oidc_issuer s.management_oidc_audience d
          (ground (arith, on))
    | inr off ↦
        subst (λ x. check_database x ≡ ok tt)
          (ok-injective {A = Settings} {a = s} {b = t} (ground (arith, off))) d
  ]

  pub validated-database :
      (s t : Settings) → validate_runtime_configuration urlparse s ≡ ok t → check_database t ≡ ok tt
  unfolding validate_runtime_configuration
  validated-database s t h =
      let (u, database, h1) = bind-ok (check_database s) _ h in
      let (v, token, h2) = bind-ok (check_token s) _ h1 in
      let (settings, management, h3) =
        bind-ok (check_management urlparse s s.management_auth_mode) _ h2 in
      let (x, github, h4) = bind-ok (check_github settings) _ h3 in
      subst (λ y. check_database y ≡ ok tt) (ok-injective h4)
        (check_management-database s settings s.management_auth_mode database management)

pub database_url-known :
    (t : Settings)
    → t.delivery_store_backend ≡ postgresql
    → check_database t ≡ ok tt
    → (url : String) × (t.database_url ≡ some url) × (startswith url "postgresql+psycopg://" ≡ true)
unfolding check_database
database_url-known t b h = elim (Option-cases t.database_url) [
  | inl missing ↦ absurd (ground (arith, rw (b, missing) at h))
  | inr (url, e) ↦
      let scheme =
        raise_if-ok (not (startswith url "postgresql+psycopg://")) value_error (rw (b, e) at h) in
      (url, e, ground (arith, scheme))
]
