-- ===== src/Tests/Webhooks.antt =====
-- The webhook and configuration theorems at concrete inputs.
use github_webhook_monitor.Prelude.{
  ◌++◌, true, ℕ, pos, suc, String, false, Option, none, some, [], ◌∷◌, ◌≡◌, ◌↔◌, Bytes, is_blank,
  parse_int,
}
use github_webhook_monitor.Errors.{ok}
use github_webhook_monitor.Domain.Json.{Json, Fields}
use github_webhook_monitor.Storage.Deliveries.{InMemoryDeliveryStore, memory_delivery_store}
use github_webhook_monitor.Services.Webhooks.{Loaded, value, WebhookDelivery, ingest}
use github_webhook_monitor.Services.Webhooks.Stored.{Ingested, ingest-Ingested}
use github_webhook_monitor.Api.Body.{
  Stream, join_chunks, bounded_body, read_bounded_body, read_bounded_body-eq,
}
use github_webhook_monitor.Api.Headers.{
  require_positive_integer_header, require_positive_integer_header-ok_iff,
}
use github_webhook_monitor.Api.Webhook.{WebhookRequest, github_webhook}
use github_webhook_monitor.Api.Webhook.Answered.{Answered, github_webhook-Answered}
use github_webhook_monitor.Api.Webhook.Unhandled.{Unhandled}
use github_webhook_monitor.Tests.Data.{digests, time}

abbrev body : Bytes
body = 123 ∷ 125 ∷ []

abbrev loads : Bytes → Loaded
loads b = value (Json.obj Fields.end)

abbrev signed : String
signed = "sha256=00000000000000000000000000000000000000000000000000000000000000ff"

abbrev store : InMemoryDeliveryStore
store = record { attempts = record { maxlen = some 2; items = [] } }

abbrev delivery : WebhookDelivery
delivery = record {
  raw_body = body;
  signature = some signed;
  github_event = "push";
  github_delivery = "guid-1";
  github_hook_id = "7";
  installation_target_id = none;
  installation_target_type = none;
  attempt_id = 1;
  received_at = time 10;
}

ingest-Ingested_example :
    Ingested digests loads "secret" delivery store
      (ingest digests loads "secret" memory_delivery_store delivery store)
ingest-Ingested_example = ingest-Ingested digests loads "secret" delivery store

abbrev request : Option String → WebhookRequest
request signature = record {
  content_type = some "application/json";
  content_length = some "2";
  x_github_event = some "push";
  x_github_delivery = some "guid-1";
  x_github_hook_id = some "7";
  x_github_hook_installation_target_id = none;
  x_github_hook_installation_target_type = none;
  x_hub_signature_256 = signature;
  stream = record { chunks = (123 ∷ []) ∷ (125 ∷ []) ∷ []; disconnects = false };
  attempt_id = 1;
  received_at = time 10;
}

github_webhook-Answered_example :
    Answered digests loads "secret" 1000 (request (some signed)) store (
      github_webhook digests loads "secret" memory_delivery_store 1000
        (request (some signed))
        store)
github_webhook-Answered_example =
    github_webhook-Answered digests loads "secret" 1000 (request (some signed)) store

abbrev three_bytes : Stream
three_bytes = record { chunks = (1 ∷ 2 ∷ []) ∷ (3 ∷ []) ∷ []; disconnects = true }

read_bounded_body-eq_example :
    read_bounded_body three_bytes 2 ≡ bounded_body 2 true ((1 ∷ 2 ∷ []) ++ ((3 ∷ []) ++ []))
unfolding join_chunks
read_bounded_body-eq_example = read_bounded_body-eq three_bytes 2

abbrev hook : String
hook = "7"

require_positive_integer_header-ok_iff_example :
    (require_positive_integer_header (some hook) "Invalid GitHub hook ID" ≡ ok hook) ↔ (
      (some hook ≡ some hook)
      × (is_blank hook ≡ false)
      × ((n : ℕ) × (parse_int hook ≡ some (pos (suc n)))))
require_positive_integer_header-ok_iff_example =
    require_positive_integer_header-ok_iff (some hook) "Invalid GitHub hook ID" hook
