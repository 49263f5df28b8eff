-- ===== src/Api/Access/Refused.antt =====
-- The errors of `require_configured_management_access` (app/api/routes.py).
use github_webhook_monitor.Prelude.{String, Bool, true, false, Option, [], str_eq, ◌≡◌}
use github_webhook_monitor.Errors.{Exn, http_exception, type_error}
use github_webhook_monitor.Services.Exec.{Exec}
use github_webhook_monitor.Security.Tokens.{management_unauthorized}
use github_webhook_monitor.Api.Access.{management_identity_unavailable}

-- The errors of a request for management access, and when each occurs.
pub data Denied (enabled : Bool) (mode : String) : Exn → Type 0 where
  switched_off : enabled ≡ false → Denied enabled mode (http_exception 404 "Not found" [])
  unauthorized : enabled ≡ true → Denied enabled mode management_unauthorized
  unavailable :
      enabled ≡ true
      → str_eq mode "shared_token" ≡ false
      → Denied enabled mode management_identity_unavailable
  unhashable : enabled ≡ true → str_eq mode "shared_token" ≡ false → Denied enabled mode type_error
