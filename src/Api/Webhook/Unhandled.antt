-- ===== src/Api/Webhook/Unhandled.antt =====
-- The exceptions that leave the webhook handler unhandled.
use github_webhook_monitor.Prelude.{
  ℕ, pos, suc, String, true, false, some, Bytes, is_blank, parse_int, ◌≡◌, refl, sym, ap, subst,
  ◌∙◌, ◌⊎◌, inl, inr, arith,
}
use github_webhook_monitor.Errors.{
  Exn, Result, ok, err, err-injective, type_error, invalid_webhook_signature,
  malformed_webhook_payload, client_disconnect,
}
use github_webhook_monitor.Domain.Datetime.{is_naive}
use github_webhook_monitor.Domain.Deliveries.{DeliveryAttempt}
use github_webhook_monitor.Security.Signature.{
  Digests, verify_github_signature, verify_github_signature-cases,
  verify_github_signature-ok_true_iff,
}
use github_webhook_monitor.Storage.Deliveries.{InMemoryDeliveryStore}
use github_webhook_monitor.Services.Webhooks.{
  Loaded, value, json_decode_error, raised, WebhookDelivery, payload_of, attempt_of,
}
use github_webhook_monitor.Domain.Json.{Json}
use github_webhook_monitor.Services.Webhooks.Stored.{Accepted-attempt_of}
use github_webhook_monitor.Api.Webhook.{WebhookRequest, checked_delivery, webhook_error}
use github_webhook_monitor.Api.Webhook.Answered.{Checked}
use github_webhook_monitor.Api.Webhook.Refusals.{IsHttp}

module _ (digests : Digests) (loads : Bytes → Loaded) (secret : String) where
  -- The exceptions that the handler does not turn into an answer.
  pub data Unhandled (d : WebhookDelivery) : Exn → Type 0 where
    comparison : Unhandled d type_error
    decoding : (e : Exn) → loads d.raw_body ≡ raised e → Unhandled d (webhook_error e)

  abbrev Owed : WebhookDelivery → Exn → Type 0
  Owed d x = IsHttp (webhook_error x) ⊎ Unhandled d (webhook_error x)

  attempt_accepted :
      (d : WebhookDelivery) (v : Json) (n : ℕ)
      → is_naive d.received_at ≡ false
      → is_blank d.github_delivery ≡ false
      → parse_int d.github_hook_id ≡ some (pos (suc n))
      → verify_github_signature digests d.raw_body d.signature secret ≡ ok true
      → loads d.raw_body ≡ value v
      → (a : DeliveryAttempt) × (attempt_of digests loads secret d ≡ ok a)
  attempt_accepted d v n aware guid_set hook valid loaded =
      let (secret_set, signed) =
        (verify_github_signature-ok_true_iff digests d.raw_body d.signature secret).0 valid in
      (
        _,
        Accepted-attempt_of digests loads secret d _ (record {
          payload = v;
          hook_id = pos (suc n);
          secret_set = secret_set;
          signed = signed;
          parsed = loaded;
          hook_parsed = hook;
          hook_positive = ground arith;
          guid_set = guid_set;
          aware = aware;
          made = refl;
        }),
      )

  attempt_of-payload :
      (d : WebhookDelivery) (e : Exn)
      → verify_github_signature digests d.raw_body d.signature secret ≡ ok true
      → payload_of (loads d.raw_body) ≡ err e
      → attempt_of digests loads secret d ≡ err e
  unfolding attempt_of
  attempt_of-payload d e v p = rw (v, p) refl

  attempt_of-signature :
      (d : WebhookDelivery)
      → verify_github_signature digests d.raw_body d.signature secret ≡ ok false
      → attempt_of digests loads secret d ≡ err invalid_webhook_signature
  unfolding attempt_of
  attempt_of-signature d v = rw v refl

  attempt_of-comparison :
      (d : WebhookDelivery)
      → verify_github_signature digests d.raw_body d.signature secret ≡ err type_error
      → attempt_of digests loads secret d ≡ err type_error
  unfolding attempt_of
  attempt_of-comparison d v = rw v refl

  is_owed :
      (d : WebhookDelivery) (e x : Exn)
      → attempt_of digests loads secret d ≡ err e
      → attempt_of digests loads secret d ≡ err x
      → Owed d e
      → Owed d x
  is_owed d e x h h' o = subst (Owed d) (err-injective (sym h ∙ h')) o

  owed_payload :
      (limit : ℕ) (q : WebhookRequest) (d : WebhookDelivery) (x : Exn)
      → Checked limit q d
      → is_naive d.received_at ≡ false
      → verify_github_signature digests d.raw_body d.signature secret ≡ ok true
      → (l : Loaded) → loads d.raw_body ≡ l
      → attempt_of digests loads secret d ≡ err x
      → Owed d x
  unfolding attempt_of payload_of webhook_error
  owed_payload limit q d x c aware v (value json) l h =
      let (n, hook) = c.hook_positive in
      let (a, e) = attempt_accepted d json n aware c.guid_set hook v l in
      absurd (ground (arith, sym e ∙ h))
  owed_payload limit q d x c aware v json_decode_error l h =
      is_owed d malformed_webhook_payload x (attempt_of-payload d _ v (ap payload_of l)) h
        (inl (_, _, _, refl))
  owed_payload limit q d x c aware v (raised e) l h =
      is_owed d e x (attempt_of-payload d _ v (ap payload_of l)) h (inr (decoding e l))

  owed :
      (limit : ℕ) (q : WebhookRequest) (d : WebhookDelivery) (x : Exn)
      → Checked limit q d
      → is_naive d.received_at ≡ false
      → attempt_of digests loads secret d ≡ err x
      → Owed d x
  unfolding webhook_error
  owed limit q d x c aware h =
      elim (verify_github_signature-cases digests d.raw_body d.signature secret) [
        | inl v ↦ owed_payload limit q d x c aware v (loads d.raw_body) refl h
        | inr (inl v) ↦ is_owed d _ x (attempt_of-signature d v) h (inl (_, _, _, refl))
        | inr (inr v) ↦ is_owed d _ x (attempt_of-comparison d v) h (inr comparison)
      ]

  module _ (limit : ℕ) (q : WebhookRequest) (s : InMemoryDeliveryStore) where
    -- The exceptions that leave the handler: of a client that left, or of a checked delivery.
    abbrev pub Escapes : Exn → Type 0
    Escapes x =
        ((x ≡ client_disconnect) × (q.stream.disconnects ≡ true))
        ⊎ ((d : WebhookDelivery) × (checked_delivery limit q ≡ ok d) × Unhandled d x)

    abbrev Answers : Result DeliveryAttempt × InMemoryDeliveryStore → Type 0
    Answers r = (x : Exn) → r.0 ≡ err x → IsHttp x ⊎ Escapes x
