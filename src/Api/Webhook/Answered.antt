-- ===== src/Api/Webhook/Answered.antt =====
-- What the webhook handler answers and stores.
use github_webhook_monitor.Prelude.{
  Bool, not-false, ℕ, pos, suc, String, true, false, not, Option, some, Bytes, length, leb, subst,
  is_blank, parse_int, ◌≤◌, ◌≡◌, refl, sym, ap, ◌∙◌, inl, inr, arith, Bool-cases,
}
use github_webhook_monitor.Errors.{
  Exn, Result, ok, err, bind-ok, raise_if-ok, ok-injective, raise_if,
}
use github_webhook_monitor.Domain.Deliveries.{DeliveryAttempt}
use github_webhook_monitor.Security.Signature.{Digests}
use github_webhook_monitor.Storage.Deliveries.{InMemoryDeliveryStore, add, memory_delivery_store}
use github_webhook_monitor.Services.Exec.{continue}
use github_webhook_monitor.Services.Webhooks.{Loaded, WebhookDelivery, ingest}
use github_webhook_monitor.Services.Webhooks.Stored.{
  Accepted, Ingested, stored, rejected, ingest-Ingested,
}
use github_webhook_monitor.Api.Body.{
  join_chunks, bounded_body, read_bounded_body, read_bounded_body-eq,
}
use github_webhook_monitor.Api.Headers.{
  is_json_content_type, require_non_empty_header, require_positive_integer_header,
  validate_content_length, validate_installation_target, require_non_empty_header-ok,
  require_positive_integer_header-ok_iff,
}
use github_webhook_monitor.Api.Webhook.{
  WebhookRequest, delivery_of, checked_delivery, answer, github_webhook,
}

-- What the checks before the service guarantee of a delivery.
pub record Checked (limit : ℕ) (q : WebhookRequest) (d : WebhookDelivery) : Type 0 where
  pub is_json : is_json_content_type q.content_type ≡ true
  pub whole : d.raw_body ≡ join_chunks q.stream.chunks
  pub within : length d.raw_body ≤ limit
  pub signature : d.signature ≡ q.x_hub_signature_256
  pub event : q.x_github_event ≡ some d.github_event
  pub guid : q.x_github_delivery ≡ some d.github_delivery
  pub guid_set : is_blank d.github_delivery ≡ false
  pub hook : q.x_github_hook_id ≡ some d.github_hook_id
  pub hook_positive : (n : ℕ) × (parse_int d.github_hook_id ≡ some (pos (suc n)))
  pub received : d.received_at ≡ q.received_at

bounded-same :
    (limit : ℕ) (gone : Bool) (body : Bytes) {b : Bytes}
    → leb (length body) limit ≡ true
    → bounded_body limit gone body ≡ ok b
    → b ≡ body
bounded-same limit true body e h = absurd (ground (arith, e))
bounded-same limit false body e h = ground (arith, e)

bounded-ok :
    (limit : ℕ) (gone : Bool) (body : Bytes) {b : Bytes}
    → bounded_body limit gone body ≡ ok b
    → (b ≡ body) × (length b ≤ limit)
bounded-ok limit gone body h = elim (Bool-cases (leb (length body) limit)) [
  | inl e ↦ let same = bounded-same limit gone body e h in (same, ground (arith, e, ap length same))
  | inr e ↦ absurd (ground (arith, e))
]

fields-Checked :
    (limit : ℕ) (q : WebhookRequest) (d : WebhookDelivery) (event guid hook : String)
    (target : Option String × Option String) (body : Bytes)
    → not (is_json_content_type q.content_type) ≡ false
    → (q.x_github_event ≡ some event) × (is_blank event ≡ false)
    → (q.x_github_delivery ≡ some guid) × (is_blank guid ≡ false)
    → (q.x_github_hook_id ≡ some hook)
      × (is_blank hook ≡ false)
      × ((n : ℕ) × (parse_int hook ≡ some (pos (suc n))))
    → body ≡ join_chunks q.stream.chunks
    → length body ≤ limit
    → d ≡ delivery_of q event guid hook target body
    → Checked limit q d
fields-Checked limit q d event guid hook target body j (e, _) (g, gb) (k, _, n) whole within made =
    subst (Checked limit q) (sym made) (record {
      is_json = not-false (is_json_content_type q.content_type) j;
      whole = whole;
      within = within;
      signature = refl;
      event = e;
      guid = g;
      guid_set = gb;
      hook = k;
      hook_positive = n;
      received = refl;
    })

pub checked_delivery-Checked :
    (limit : ℕ) (q : WebhookRequest) (d : WebhookDelivery)
    → checked_delivery limit q ≡ ok d
    → Checked limit q d
unfolding checked_delivery
checked_delivery-Checked limit q d h =
    let (u, is_json, h1) = bind-ok (raise_if (not (is_json_content_type q.content_type)) _) _ h in
    let (event, named, h2) =
      bind-ok (require_non_empty_header q.x_github_event "Missing GitHub event") _ h1 in
    let (guid, given, h3) =
      bind-ok (require_non_empty_header q.x_github_delivery "Missing GitHub delivery ID") _ h2 in
    let (hook, number, h4) =
      bind-ok (require_positive_integer_header q.x_github_hook_id "Invalid GitHub hook ID") _ h3 in
    let (target, valid, h5) =
      bind-ok
        (validate_installation_target q.x_github_hook_installation_target_id
          q.x_github_hook_installation_target_type)
        _ h4 in
    let (v, declared, h6) = bind-ok (validate_content_length q.content_length limit) _ h5 in
    let (body, read, h7) = bind-ok (read_bounded_body q.stream limit) _ h6 in
    let (whole, within) =
      bounded-ok limit q.stream.disconnects (join_chunks q.stream.chunks)
        (sym (read_bounded_body-eq q.stream limit) ∙ read) in
    fields-Checked limit q d event guid hook target body (raise_if-ok _ _ is_json)
      (require_non_empty_header-ok _ _ named) (require_non_empty_header-ok _ _ given)
      ((require_positive_integer_header-ok_iff _ _ _).0 number) whole within (sym (ok-injective h7))

module _ (digests : Digests) (loads : Bytes → Loaded) (secret : String) (limit : ℕ)
    (q : WebhookRequest) (s : InMemoryDeliveryStore) where
  -- What the handler comes to with the in-memory store.
  pub data Answered : Result DeliveryAttempt × InMemoryDeliveryStore → Type 0 where
    accepted :
        (d : WebhookDelivery) (a : DeliveryAttempt)
        → Checked limit q d
        → Accepted digests loads secret d a
        → Answered (ok a, add a s)
    refused : (x : Exn) → Answered (err x, s)

  from_ingested :
      (d : WebhookDelivery)
      → Checked limit q d
      → {r : Result DeliveryAttempt × InMemoryDeliveryStore} → Ingested digests loads secret d s r
      → Answered (answer digests loads secret memory_delivery_store r.0, r.1)
  from_ingested d c (stored a w) = accepted d a c w
  from_ingested d c (rejected x _) = refused _

  from_checked :
      (r : Result WebhookDelivery)
      → checked_delivery limit q ≡ r
      → Answered (
          continue r s λ delivery s'.
            let (a, s'') = ingest digests loads secret memory_delivery_store delivery s' in
            (answer digests loads secret memory_delivery_store a, s''))
  from_checked (ok d) h =
      from_ingested d (checked_delivery-Checked limit q d h)
        (ingest-Ingested digests loads secret d s)
  from_checked (err x) h = refused x

  -- A webhook request either is answered with an attempt, which is then the newest one stored, or
  -- with an error, and then the store is as before. It is answered with an attempt only if its
  -- media type is JSON, the whole body is within the limit, its headers name an event, a GUID and a
  -- positive hook id, and the delivery that they make is signed and accepted.
  pub github_webhook-Answered :
      Answered (github_webhook digests loads secret memory_delivery_store limit q s)
  unfolding github_webhook
  github_webhook-Answered = from_checked (checked_delivery limit q) refl
