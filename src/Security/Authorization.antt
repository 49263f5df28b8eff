-- ===== src/Security/Authorization.antt =====
-- `authorize_management_capability` of app/security.py.
pub mod Grants
use github_webhook_monitor.Prelude.{String, not, none, some, str_eq, str_in, if◌then◌else◌}
use github_webhook_monitor.Errors.{
  Result, ok, err, value_error, insufficient_management_scope, ◌>>=◌,
}
use github_webhook_monitor.Domain.Management.{
  ManagementPrincipal, ManagementScopePolicy, ManagementAuthorization, management_capabilities,
  authentication_method_management_bearer, authentication_method_oidc_jwt,
  authorization_method_oidc_scope, authorization_method_shared_management_token, scope_for,
}

-- The last part: the scope that grants the capability, if the principal has one.
unfoldable pub oidc_authorization :
    ManagementPrincipal → String → ManagementScopePolicy → String → Result ManagementAuthorization
oidc_authorization principal capability policy required_scope =
    if str_in required_scope principal.scopes
    then ok (record {
      principal = principal;
      capability = capability;
      authorization_method = authorization_method_oidc_scope;
      matched_scope = some required_scope;
    })
    else if str_in policy.full_management_scope principal.scopes
    then ok (record {
      principal = principal;
      capability = capability;
      authorization_method = authorization_method_oidc_scope;
      matched_scope = some policy.full_management_scope;
    })
    else err insufficient_management_scope

unfoldable pub authorize_management_capability :
    ManagementPrincipal → String → ManagementScopePolicy → Result ManagementAuthorization
unfolding oidc_authorization
authorize_management_capability principal capability policy =
    if not (str_in capability management_capabilities)
    then err value_error
    else if str_eq principal.authentication_method authentication_method_management_bearer
    then ok (record {
      principal = principal;
      capability = capability;
      authorization_method = authorization_method_shared_management_token;
      matched_scope = none;
    })
    else if not (str_eq principal.authentication_method authentication_method_oidc_jwt)
    then err insufficient_management_scope
    else (do
      required_scope ← scope_for policy capability
      oidc_authorization principal capability policy required_scope)
