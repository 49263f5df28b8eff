-- ===== src/Api/Access.antt =====
-- The access checks of the management endpoints (app/api/routes.py).
pub mod Refused
use github_webhook_monitor.Prelude.{
  String, Bool, not, Option, none, some, [], ◌∷◌, ◌<>◌, if◌then◌else◌, str_eq, str_in, true, ◌≡◌,
  refl, arith,
}
use github_webhook_monitor.Errors.{
  Exn, Result, ok, err, http_exception, invalid_management_token, insufficient_management_scope,
  identity_provider_unavailable,
}
use github_webhook_monitor.Services.Exec.{Exec, raise, pure}
use github_webhook_monitor.Domain.Management.{
  ManagementPrincipal, ManagementScopePolicy, ManagementAuthorization, scope_for,
  management_capabilities,
}
use github_webhook_monitor.Security.Tokens.{
  Credentials, authenticate_shared_management_token, management_unauthorized,
}
use github_webhook_monitor.Security.Authorization.Grants.{authorize_errors, scope_for_known}
use github_webhook_monitor.Security.Authorization.{authorize_management_capability}

unfoldable pub management_forbidden : Option String → Exn
management_forbidden none = http_exception 403 "Forbidden" []
management_forbidden (some required_scope) = http_exception 403 "Forbidden" (
    (
      "WWW-Authenticate",
      "Bearer error=\"insufficient_scope\", scope=\"" <> (required_scope <> "\""),
    )
    ∷ [])

abbrev pub management_identity_unavailable : Exn
management_identity_unavailable = http_exception 503 "Service unavailable" []

-- The `except` clauses around the authenticator.
unfoldable pub authentication_error : Exn → Exn
authentication_error invalid_management_token = management_unauthorized
authentication_error insufficient_management_scope = management_forbidden none
authentication_error identity_provider_unavailable = management_identity_unavailable
authentication_error e = e

unfoldable pub refused_as {ℓ} : {A : Type ℓ} → Result A → Result A
unfolding authentication_error
refused_as (ok a) = ok a
refused_as (err e) = err (authentication_error e)

abbrev pub from_authenticator {ℓ} :
    {W : Type ℓ}
    → Option (Option Credentials → Exec W ManagementPrincipal)
    → Option Credentials
    → Exec W ManagementPrincipal
from_authenticator none credentials w = raise management_identity_unavailable w
from_authenticator (some authenticate) credentials w =
    let (r, w') = authenticate credentials w in (refused_as r, w')

unfoldable pub require_configured_management_access {ℓ} :
    {W : Type ℓ}
    → Bool
    → (mode : String) → Option String
    → Option (Option Credentials → Exec W ManagementPrincipal)
    → Option Credentials
    → Exec W ManagementPrincipal
require_configured_management_access management_api_enabled mode token authenticator credentials =
    if not management_api_enabled
    then raise (http_exception 404 "Not found" [])
    else if str_eq mode "shared_token"
    then pure (authenticate_shared_management_token token credentials)
    else from_authenticator authenticator credentials

-- The `except` clause around the authorization: `scope_for` may raise there.
unfoldable pub capability_error : ManagementScopePolicy → String → Exn → Exn
capability_error policy capability insufficient_management_scope =
    elim (scope_for policy capability) [ ok scope ↦ management_forbidden (some scope) | err e ↦ e ]
capability_error policy capability e = e

unfoldable pub require_management_capability :
    ManagementScopePolicy → String → ManagementPrincipal → Result ManagementAuthorization
require_management_capability policy capability principal =
    elim (authorize_management_capability principal capability policy) [
      | ok authorization ↦ ok authorization
      | err e ↦ err (capability_error policy capability e)
    ]

module _ (policy : ManagementScopePolicy) (capability : String) (p : ManagementPrincipal) where
  refused_with :
      (scope : String)
      → scope_for policy capability ≡ ok scope
      → (r : Result ManagementAuthorization)
      → authorize_management_capability p capability policy ≡ r
      → (x : Exn) → str_in capability management_capabilities ≡ true
      → require_management_capability policy capability p ≡ err x
      → x ≡ management_forbidden (some scope)
  unfolding require_management_capability capability_error
  refused_with scope e (ok a) h x known g = absurd (ground (arith, h, g))
  refused_with scope e (err y) h x known g =
      let why = authorize_errors p capability policy y known h in ground (arith, why, h, e, g)

  -- On an endpoint for one of the three capabilities, the only answer to a principal that is not
  -- authorized is 403, and it names the scope that the policy has for the capability.
  pub require_management_capability-forbidden :
      (x : Exn)
      → str_in capability management_capabilities ≡ true
      → require_management_capability policy capability p ≡ err x
      → (scope : String) × (scope_for policy capability ≡ ok scope)
        × (x ≡ management_forbidden (some scope))
  require_management_capability-forbidden x known h =
      let (scope, e) = scope_for_known policy capability known in
      (scope, e, refused_with scope e _ refl x known h)
