-- ===== src/Api/Webhook.antt =====
-- The handler of `POST /webhook/github` (app/api/routes.py).
pub mod Answered
pub mod Refusals
pub mod Unhandled
use github_webhook_monitor.Prelude.{ℕ, String, Option, List, [], Bytes, not}
use github_webhook_monitor.Errors.{
  Exn, Result, ok, err, delivery_store_error, invalid_webhook_signature, malformed_webhook_payload,
  http_exception, raise_if, ◌>>=◌, ◌>>◌,
}
use github_webhook_monitor.Domain.Datetime.{Datetime, Uuid}
use github_webhook_monitor.Domain.Deliveries.{DeliveryAttempt}
use github_webhook_monitor.Security.Signature.{Digests}
use github_webhook_monitor.Storage.Deliveries.{DeliveryStore}
use github_webhook_monitor.Services.Exec.{Exec, continue}
use github_webhook_monitor.Services.Webhooks.{Loaded, WebhookDelivery, ingest}
use github_webhook_monitor.Api.Body.{Stream, read_bounded_body}
use github_webhook_monitor.Api.Headers.{
  is_json_content_type, require_non_empty_header, require_positive_integer_header,
  validate_content_length, validate_installation_target,
}

-- The header parameters of the handler, what `request.stream()` gives, and what the
-- service's factories return for this request.
pub record WebhookRequest : Type 0 where
  pub content_type : Option String
  pub content_length : Option String
  pub x_github_event : Option String
  pub x_github_delivery : Option String
  pub x_github_hook_id : Option String
  pub x_github_hook_installation_target_id : Option String
  pub x_github_hook_installation_target_type : Option String
  pub x_hub_signature_256 : Option String
  pub stream : Stream
  pub attempt_id : Uuid
  pub received_at : Datetime

-- The arguments that the handler passes to `ingest`.
abbrev pub delivery_of :
    WebhookRequest
    → (github_event github_delivery github_hook_id : String)
    → (target : Option String × Option String) → (raw_body : Bytes) → WebhookDelivery
delivery_of request github_event github_delivery github_hook_id target raw_body = record {
  raw_body = raw_body;
  signature = request.x_hub_signature_256;
  github_event = github_event;
  github_delivery = github_delivery;
  github_hook_id = github_hook_id;
  installation_target_id = target.0;
  installation_target_type = target.1;
  attempt_id = request.attempt_id;
  received_at = request.received_at;
}

-- The handler up to the call of the service: its arguments, or the answer to a bad request.
unfoldable pub checked_delivery : ℕ → WebhookRequest → Result WebhookDelivery
checked_delivery max_webhook_body_bytes request = do
  raise_if (not (is_json_content_type request.content_type))
      (http_exception 415 "Unsupported media type" [])
  github_event ← require_non_empty_header request.x_github_event "Missing GitHub event"
  github_delivery ← require_non_empty_header request.x_github_delivery "Missing GitHub delivery ID"
  github_hook_id ← require_positive_integer_header request.x_github_hook_id "Invalid GitHub hook ID"
  target ←
      validate_installation_target request.x_github_hook_installation_target_id
        request.x_github_hook_installation_target_type
  length_checked ← validate_content_length request.content_length max_webhook_body_bytes
  raw_body ← read_bounded_body request.stream max_webhook_body_bytes
  ok (delivery_of request github_event github_delivery github_hook_id target raw_body)

-- The `except` clauses of the handler.
unfoldable pub webhook_error : Exn → Exn
webhook_error invalid_webhook_signature = http_exception 401 "Invalid webhook signature" []
webhook_error malformed_webhook_payload = http_exception 400 "Invalid JSON payload" []
webhook_error delivery_store_error = http_exception 503 "Service unavailable" []
webhook_error e = e

module _ (digests : Digests) (loads : Bytes → Loaded) (webhook_secret : String)
    (delivery_store : DeliveryStore) where
  abbrev pub answer : Result DeliveryAttempt → Result DeliveryAttempt
  answer (ok event) = ok event
  answer (err e) = err (webhook_error e)

  -- What the handler answers is the stored attempt; `to_dict` and the JSON text are left out.
  unfoldable pub github_webhook : ℕ → WebhookRequest → Exec delivery_store.State DeliveryAttempt
  github_webhook max_webhook_body_bytes request store =
      continue (checked_delivery max_webhook_body_bytes request) store λ delivery s.
        let (r, s') = ingest digests loads webhook_secret delivery_store delivery s in
        (answer r, s')
