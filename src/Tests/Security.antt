-- ===== src/Tests/Security.antt =====
-- The security and configuration theorems at concrete inputs.
use github_webhook_monitor.Prelude.{
  String, true, false, none, some, [], ◌∷◌, ◌≡◌, ◌↔◌, refl, arith, is_empty, str_in, is_ascii,
  all_chars, Bytes, is_blank, strip, lstrip, rstrip, is_space, eq_iff, str_length,
}
use github_webhook_monitor.Errors.{ok, err, type_error, value_error, insufficient_management_scope}
use github_webhook_monitor.Domain.Management.{
  recovery_execute, recovery_read, scope_for, shared_token_principal,
}
use github_webhook_monitor.Security.Signature.{
  expected_signature, verify_github_signature, verify_github_signature-ok_true_iff,
  verify_github_signature-type_error,
}
use github_webhook_monitor.Security.Tokens.{
  Credentials, is_bearer, verify_management_token, verify_management_token_iff,
  authenticate_shared_management_token, authenticate_shared_management_token_iff,
}
use github_webhook_monitor.Security.Authorization.{
  oidc_authorization, authorize_management_capability,
}
use github_webhook_monitor.Security.Authorization.Grants.{
  Grant, authorize-Grant, authorize-refused_iff,
}
use github_webhook_monitor.Config.{
  Settings, memory, shared_token, check_database, check_token, check_management, check_github,
  validate_runtime_configuration, normalized_scopes, set_of, validate_management_scope_mapping,
}
use github_webhook_monitor.Api.Access.{
  management_forbidden, capability_error, require_management_capability,
  require_management_capability-forbidden,
}
use github_webhook_monitor.Config.Valid.{
  GithubReady, Managed, validate_runtime_configuration-Managed,
}
use github_webhook_monitor.Config.Scopes.{other_capability_refused}
use github_webhook_monitor.Tests.Data.{digests, operator, policy, granted}

abbrev body : Bytes
body = 123 ∷ 125 ∷ []

abbrev header : String
header = "sha256=00000000000000000000000000000000000000000000000000000000000000ff"

verify_github_signature-ok_true_iff_example :
    (verify_github_signature digests body (some header) "secret" ≡ ok true) ↔ (
      (is_empty "secret" ≡ false) × (some header ≡ some (expected_signature digests body "secret")))
verify_github_signature-ok_true_iff_example =
    verify_github_signature-ok_true_iff digests body (some header) "secret"

verify_github_signature-type_error_example :
    verify_github_signature digests body (some "sha256=é") "secret" ≡ err type_error
unfolding is_ascii all_chars
verify_github_signature-type_error_example =
    verify_github_signature-type_error digests body "sha256=é" "secret" refl refl

abbrev token : String
token = "token"

verify_management_token_iff_example :
    (verify_management_token token token ≡ true) ↔ ((token ≡ token) × (is_empty token ≡ false))
verify_management_token_iff_example = verify_management_token_iff token token

abbrev bearer : Credentials
bearer = record { scheme = "Bearer"; credentials = token }

authenticate_shared_management_token_iff_example :
    (authenticate_shared_management_token (some token) (some bearer) ≡ ok shared_token_principal)
    ↔ ((c : Credentials) × (t : String) × (some bearer ≡ some c)
        × (some token ≡ some t)
        × (is_bearer c ≡ true)
        × (c.credentials ≡ t)
        × (is_empty t ≡ false))
authenticate_shared_management_token_iff_example =
    authenticate_shared_management_token_iff (some token) (some bearer)

authorize-Grant_example :
    (granted.principal ≡ operator)
    × (granted.capability ≡ recovery_execute)
    × Grant operator policy granted
unfolding authorize_management_capability oidc_authorization scope_for
authorize-Grant_example = authorize-Grant operator recovery_execute policy granted refl

authorize-refused_iff_example :
    (authorize_management_capability operator recovery_read policy
      ≡ err insufficient_management_scope)
    ↔ ((str_in "recovery.r" operator.scopes ≡ false)
        × (str_in policy.full_management_scope operator.scopes ≡ false))
unfolding scope_for
authorize-refused_iff_example =
    authorize-refused_iff operator recovery_read policy "recovery.r" refl refl refl

other_capability_refused_example :
    authorize_management_capability operator recovery_read policy
    ≡ err insufficient_management_scope
unfolding scope_for validate_management_scope_mapping normalized_scopes set_of is_blank strip lstrip
    rstrip is_space
other_capability_refused_example =
    other_capability_refused policy operator recovery_execute recovery_read "recovery.x"
      "recovery.r" refl refl refl refl refl refl
      (λ h. absurd (ground (arith, (eq_iff recovery_execute recovery_read).1 h)))

abbrev settings : Settings
settings = record {
  delivery_store_backend = memory;
  database_url = none;
  management_api_enabled = true;
  management_auth_mode = shared_token;
  management_api_token = some "0123456789abcdef0123456789abcdef";
  management_oidc_issuer = none;
  management_oidc_audience = none;
  management_oidc_required_scope = none;
  management_oidc_full_management_scope = "webhook-monitor.manage";
  management_oidc_diagnostics_read_scope = "webhook-monitor.diagnostics.read";
  management_oidc_recovery_read_scope = "webhook-monitor.recovery.read";
  management_oidc_recovery_execute_scope = "webhook-monitor.recovery.execute";
  management_oidc_allowed_algorithms = "RS256";
  github_reconciliation_enabled = false;
  github_repository_webhook_token = none;
  github_redelivery_enabled = false;
  github_repository_webhook_write_token = none;
}

validate_runtime_configuration-Managed_example : GithubReady settings × Managed settings
unfolding validate_runtime_configuration check_database check_token check_management check_github
    str_length
validate_runtime_configuration-Managed_example =
    validate_runtime_configuration-Managed (λ url. err value_error) settings settings refl

require_management_capability-forbidden_example :
    (scope : String) × (scope_for policy recovery_read ≡ ok scope)
    × (management_forbidden (some "recovery.r") ≡ management_forbidden (some scope))
unfolding require_management_capability capability_error scope_for authorize_management_capability
    oidc_authorization
require_management_capability-forbidden_example =
    require_management_capability-forbidden policy recovery_read operator
      (management_forbidden (some "recovery.r")) refl refl
