-- ===== src/Tests/Data.antt =====
-- Concrete records for the examples.
use github_webhook_monitor.Prelude.{
  Bool, ℕ, pos, String, none, some, [], ◌∷◌, refl, str_length, all_chars,
}
use github_webhook_monitor.Domain.Datetime.{Datetime}
use github_webhook_monitor.Domain.Deliveries.{DeliveryAttempt, is_sha256_hex, is_hex_digit}
use github_webhook_monitor.Domain.Json.{Json}
use github_webhook_monitor.Domain.Management.{
  ManagementPrincipal, ManagementScopePolicy, ManagementAuthorization, recovery_execute,
  authentication_method_oidc_jwt, authorization_method_oidc_scope,
}
use github_webhook_monitor.Integrations.GitHub.{GitHubDeliverySummary}
use github_webhook_monitor.Security.Signature.{Digests}

abbrev pub hex_digest : String
hex_digest = "00000000000000000000000000000000000000000000000000000000000000ff"

abbrev pub digests : Digests
unfolding is_sha256_hex str_length all_chars is_hex_digit
digests = record {
  sha256_hex = λ m. hex_digest;
  hmac_sha256_hex = λ k m. hex_digest;
  sha256_is_hex = λ m. refl;
  hmac_is_hex = λ k m. refl;
}

abbrev pub time : ℕ → Datetime
time n = record { instant = n; utcoffset = some (pos 0) }

abbrev pub attempt : (id received : ℕ) → DeliveryAttempt
attempt id received = record {
  attempt_id = id;
  delivery_identity = record { delivery_guid = "guid-1"; hook_id = pos 7 };
  received_at = time received;
  payload_sha256 = hex_digest;
  event_type = "push";
  action = Json.null;
  repository = Json.str "octo/hello";
  sender = Json.null;
  installation_target_id = none;
  installation_target_type = none;
}

abbrev pub summary : ℕ → String → GitHubDeliverySummary
summary id guid = record {
  github_delivery_id = pos id;
  delivery_guid = guid;
  delivered_at = time 5;
  redelivery = Bool.false;
  duration = none;
  status = some "OK";
  status_code = some (pos 200);
  event = some "push";
  action = none;
  installation_id = none;
  repository_id = none;
  throttled_at = none;
}

abbrev pub operator : ManagementPrincipal
operator = record {
  authentication_method = authentication_method_oidc_jwt;
  issuer = some "https://id.example";
  subject = some "alice";
  client_id = some "console";
  scopes = "recovery.x" ∷ [];
}

abbrev pub policy : ManagementScopePolicy
policy = record {
  full_management_scope = "manage";
  diagnostics_read_scope = "diagnostics.r";
  recovery_read_scope = "recovery.r";
  recovery_execute_scope = "recovery.x";
}

abbrev pub granted : ManagementAuthorization
granted = record {
  principal = operator;
  capability = recovery_execute;
  authorization_method = authorization_method_oidc_scope;
  matched_scope = some "recovery.x";
}
