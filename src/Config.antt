-- ===== src/Config.antt =====
-- app/config.py: what the settings are checked for before the application is built. The field
-- types and bounds are pydantic's; `urlparse` is a parameter.
pub mod Database
pub mod Scopes
pub mod Valid
use github_webhook_monitor.Prelude.{
  String, Bool, not, ◌&&◌, ◌||◌, Option, none, some, List, [], ◌∷◌, length, is_none, is_blank,
  is_empty, strip, str_eq, str_in, str_length, startswith, ltb, ◌==◌, if◌then◌else◌,
}
use github_webhook_monitor.Errors.{Result, ok, err, value_error, raise_if, ◌>>=◌, ◌>>◌}
use github_webhook_monitor.Domain.Url.{ParsedUrl}
use github_webhook_monitor.Domain.Management.{ManagementScopePolicy}
use github_webhook_monitor.Security.Algorithms.{parse_allowed_jwt_algorithms}
use github_webhook_monitor.Security.Tokens.{min_management_api_token_length}

pub data DeliveryStoreBackend : Type 0 where
  memory postgresql : DeliveryStoreBackend

pub data ManagementAuthMode : Type 0 where
  shared_token oidc_jwt : ManagementAuthMode

-- The fields that the validator reads, with the database's and the runtime's left out.
pub record Settings : Type 0 where
  pub delivery_store_backend : DeliveryStoreBackend
  pub database_url : Option String
  pub management_api_enabled : Bool
  pub management_auth_mode : ManagementAuthMode
  pub management_api_token : Option String
  pub management_oidc_issuer : Option String
  pub management_oidc_audience : Option String
  pub management_oidc_required_scope : Option String
  pub management_oidc_full_management_scope : String
  pub management_oidc_diagnostics_read_scope : String
  pub management_oidc_recovery_read_scope : String
  pub management_oidc_recovery_execute_scope : String
  pub management_oidc_allowed_algorithms : String
  pub github_reconciliation_enabled : Bool
  pub github_repository_webhook_token : Option String
  pub github_redelivery_enabled : Bool
  pub github_repository_webhook_write_token : Option String

-- The loop of `validate_management_scope_mapping`: the stripped values.
unfoldable pub normalized_scopes : List String → Result (List String)
normalized_scopes [] = ok []
normalized_scopes (value ∷ values) = do
  raise_if (is_blank value) value_error
  raise_if (not (str_eq (strip value) value)) value_error
  rest ← normalized_scopes values
  ok (strip value ∷ rest)

-- `set(values)`, as a list of its members
unfoldable pub set_of : List String → List String
set_of [] = []
set_of (value ∷ values) =
    let rest = set_of values in if str_in value values then rest else value ∷ rest

unfoldable pub validate_management_scope_mapping : ManagementScopePolicy → Result (Unit {0})
validate_management_scope_mapping policy = do
  values ← normalized_scopes (
      policy.full_management_scope ∷ policy.diagnostics_read_scope ∷ policy.recovery_read_scope
      ∷ policy.recovery_execute_scope ∷ [])
  raise_if (not (length (set_of values) == length values)) value_error

unfoldable pub check_database : Settings → Result (Unit {0})
unfolding startswith
check_database s = elim s.delivery_store_backend [
  | memory ↦ ok tt
  | postgresql ↦ elim s.database_url [
    | none ↦ err value_error
    | some url ↦ raise_if (not (startswith url "postgresql+psycopg://")) value_error
  ]
]

unfoldable pub check_token : Settings → Result (Unit {0})
check_token s = elim s.management_api_token [
  | none ↦ elim s.management_auth_mode [
    | shared_token ↦ raise_if s.management_api_enabled value_error
    | oidc_jwt ↦ ok tt
  ]
  | some token ↦ raise_if (ltb (str_length token) min_management_api_token_length) value_error
]

-- The scope of full management, from its own field and the deprecated one.
unfoldable pub full_scope : String → Option String → Result String
full_scope full none = ok full
full_scope full (some deprecated) = do
  raise_if (is_blank deprecated) value_error
  raise_if (not (str_eq full "webhook-monitor.manage") && not (str_eq deprecated full)) value_error
  ok deprecated

-- The policy that app/factory.py makes from the settings.
unfoldable pub scope_policy : Settings → ManagementScopePolicy
scope_policy s = record {
  full_management_scope = s.management_oidc_full_management_scope;
  diagnostics_read_scope = s.management_oidc_diagnostics_read_scope;
  recovery_read_scope = s.management_oidc_recovery_read_scope;
  recovery_execute_scope = s.management_oidc_recovery_execute_scope;
}

unfoldable pub check_github : Settings → Result (Unit {0})
check_github s = do
  raise_if (s.github_reconciliation_enabled && not s.management_api_enabled) value_error
  raise_if (s.github_reconciliation_enabled && is_none s.github_repository_webhook_token)
      value_error
  raise_if (s.github_redelivery_enabled && not s.management_api_enabled) value_error
  raise_if (s.github_redelivery_enabled && not s.github_reconciliation_enabled) value_error
  raise_if (s.github_redelivery_enabled && is_none s.github_repository_webhook_write_token)
      value_error

module _ (urlparse : String → Result ParsedUrl) where
  unfoldable pub validate_oidc_issuer : String → Result (Unit {0})
  validate_oidc_issuer value = do
    parsed ← urlparse value
    raise_if
        (not (str_eq parsed.scheme "https")
          || is_empty parsed.netloc
          || not (is_empty parsed.query)
          || not (is_empty parsed.fragment))
        value_error

  -- The branch for access tokens; it may set the scope of full management.
  unfoldable pub check_oidc : Settings → Option String → Option String → Result Settings
  check_oidc s none audience = err value_error
  check_oidc s (some issuer) none = err value_error
  check_oidc s (some issuer) (some audience) = do
    validate_oidc_issuer issuer
    raise_if (is_blank audience) value_error
    full ← full_scope s.management_oidc_full_management_scope s.management_oidc_required_scope
    validate_management_scope_mapping
        (scope_policy (record s { management_oidc_full_management_scope = full }))
    algorithms ← parse_allowed_jwt_algorithms s.management_oidc_allowed_algorithms
    ok (record s { management_oidc_full_management_scope = full })

  unfoldable pub check_management : Settings → ManagementAuthMode → Result Settings
  check_management s shared_token = ok s
  check_management s oidc_jwt =
      if s.management_api_enabled
      then check_oidc s s.management_oidc_issuer s.management_oidc_audience
      else ok s

  unfoldable pub validate_runtime_configuration : Settings → Result Settings
  validate_runtime_configuration s = do
    check_database s
    check_token s
    settings ← check_management s s.management_auth_mode
    check_github settings
    ok settings
