-- ===== src/Domain/Management.antt =====
-- app/domain/management.py
use github_webhook_monitor.Prelude.{String, Option, none, List, [], ◌∷◌, str_eq, if◌then◌else◌}
use github_webhook_monitor.Errors.{Result, ok, err, value_error}

abbrev pub authentication_method_management_bearer : String
authentication_method_management_bearer = "management_bearer"

abbrev pub authentication_method_oidc_jwt : String
authentication_method_oidc_jwt = "oidc_jwt"

abbrev pub authorization_method_oidc_scope : String
authorization_method_oidc_scope = "oidc_scope"

abbrev pub authorization_method_shared_management_token : String
authorization_method_shared_management_token = "shared_management_token"

abbrev pub diagnostics_read : String
diagnostics_read = "diagnostics.read"

abbrev pub recovery_read : String
recovery_read = "recovery.read"

abbrev pub recovery_execute : String
recovery_execute = "recovery.execute"

abbrev pub management_capabilities : List String
management_capabilities = diagnostics_read ∷ recovery_read ∷ recovery_execute ∷ []

-- The frozenset of scopes is a list that is only asked for members.
pub record ManagementPrincipal : Type 0 where
  pub authentication_method : String
  pub issuer : Option String
  pub subject : Option String
  pub client_id : Option String
  pub scopes : List String

pub record ManagementScopePolicy : Type 0 where
  pub full_management_scope : String
  pub diagnostics_read_scope : String
  pub recovery_read_scope : String
  pub recovery_execute_scope : String

unfoldable pub scope_for : ManagementScopePolicy → String → Result String
scope_for policy capability =
    if str_eq capability diagnostics_read
    then ok policy.diagnostics_read_scope
    else if str_eq capability recovery_read
    then ok policy.recovery_read_scope
    else if str_eq capability recovery_execute
    then ok policy.recovery_execute_scope
    else err value_error

pub record ManagementAuthorization : Type 0 where
  pub principal : ManagementPrincipal
  pub capability : String
  pub authorization_method : String
  pub matched_scope : Option String

abbrev pub shared_token_principal : ManagementPrincipal
shared_token_principal = record {
  authentication_method = authentication_method_management_bearer;
  issuer = none;
  subject = none;
  client_id = none;
  scopes = [];
}
