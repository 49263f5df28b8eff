-- ===== src/Services/Webhooks.antt =====
-- app/services/webhooks.py: from a signed request body to a stored delivery attempt. The JSON
-- text format is left to `loads`.
pub mod Stored
use github_webhook_monitor.Prelude.{String, Option, not, Bytes, parse_int}
use github_webhook_monitor.Errors.{
  Exn, Result, ok, err, value_error, invalid_webhook_signature, malformed_webhook_payload, raise_if,
  or_raise, ◌>>=◌, ◌>>◌,
}
use github_webhook_monitor.Domain.Datetime.{Datetime, Uuid}
use github_webhook_monitor.Domain.Json.{Json, get, get_if_dict, dict_or_empty}
use github_webhook_monitor.Domain.Deliveries.{
  GitHubDeliveryIdentity, DeliveryAttempt, github_delivery_identity, delivery_attempt,
}
use github_webhook_monitor.Security.Signature.{Digests, verify_github_signature}
use github_webhook_monitor.Storage.Deliveries.{DeliveryStore}
use github_webhook_monitor.Services.Exec.{Exec, continue}

-- What `json.loads(raw_body.decode("utf-8"))` comes to: a value, the exception that `ingest`
-- catches, or one that it does not (a UnicodeDecodeError; the ValueError of an integer with too
-- many digits).
pub data Loaded : Type 0 where
  value : Json → Loaded
  json_decode_error : Loaded
  raised : Exn → Loaded

-- The arguments of `ingest`, with what the two factories return.
pub record WebhookDelivery : Type 0 where
  pub raw_body : Bytes
  pub signature : Option String
  pub github_event : String
  pub github_delivery : String
  pub github_hook_id : String
  pub installation_target_id : Option String
  pub installation_target_type : Option String
  pub attempt_id : Uuid
  pub received_at : Datetime

unfoldable pub payload_of : Loaded → Result Json
payload_of (value v) = ok v
payload_of json_decode_error = err malformed_webhook_payload
payload_of (raised e) = err e

module _ (digests : Digests) (loads : Bytes → Loaded) (webhook_secret : String) where
  -- The arguments of the `DeliveryAttempt` constructor.
  unfoldable pub attempt_fields : WebhookDelivery → Json → GitHubDeliveryIdentity → DeliveryAttempt
  attempt_fields d payload delivery_identity = record {
    attempt_id = d.attempt_id;
    delivery_identity = delivery_identity;
    received_at = d.received_at;
    payload_sha256 = digests.sha256_hex d.raw_body;
    event_type = d.github_event;
    action = get "action" (dict_or_empty payload);
    repository = get_if_dict "full_name" (get "repository" (dict_or_empty payload));
    sender = get_if_dict "login" (get "sender" (dict_or_empty payload));
    installation_target_id = d.installation_target_id;
    installation_target_type = d.installation_target_type;
  }

  -- `ingest` up to the attempt that it stores.
  unfoldable pub attempt_of : WebhookDelivery → Result DeliveryAttempt
  attempt_of d = do
    is_valid ← verify_github_signature digests d.raw_body d.signature webhook_secret
    raise_if (not is_valid) invalid_webhook_signature
    payload ← payload_of (loads d.raw_body)
    hook_id ← or_raise (parse_int d.github_hook_id) value_error
    delivery_identity ← github_delivery_identity d.github_delivery hook_id
    delivery_attempt (attempt_fields d payload delivery_identity)

  module _ (delivery_store : DeliveryStore) where
    abbrev pub store_attempt : DeliveryAttempt → Exec delivery_store.State DeliveryAttempt
    store_attempt attempt store =
        let (added, store') = delivery_store.add attempt store in (added >> ok attempt, store')

    unfoldable pub ingest : WebhookDelivery → Exec delivery_store.State DeliveryAttempt
    ingest d store = continue (attempt_of d) store store_attempt
