-- ===== src/Services/Webhooks/Stored.antt =====
-- Which webhook deliveries are stored, and what is stored of one.
use github_webhook_monitor.Prelude.{
  not-false, ℤ, pos, String, Bool, false, not, some, Bytes, parse_int, is_blank, is_empty, leb_ℤ,
  Bool-cases, inl, inr, ◌≡◌, refl, ap, ap₂, ◌∙◌, arith,
}
use github_webhook_monitor.Errors.{
  Exn, Result, ok, err, bind-ok, or_raise-ok, raise_if-ok, raise_if, or_raise, value_error,
  invalid_webhook_signature,
}
use github_webhook_monitor.Domain.Datetime.{is_naive}
use github_webhook_monitor.Domain.Deliveries.{
  GitHubDeliveryIdentity, DeliveryAttempt, github_delivery_identity, delivery_attempt,
  is_sha256_hex,
}
use github_webhook_monitor.Domain.Json.{Json}
use github_webhook_monitor.Security.Signature.{
  Digests, expected_signature, verify_github_signature, verify_github_signature-ok_true_iff,
}
use github_webhook_monitor.Services.Webhooks.{
  Loaded, value, json_decode_error, raised, WebhookDelivery, payload_of, attempt_fields, attempt_of,
  store_attempt, ingest,
}
use github_webhook_monitor.Services.Exec.{continue}
use github_webhook_monitor.Storage.Deliveries.{InMemoryDeliveryStore, add, memory_delivery_store}

payload_of-ok : (l : Loaded) {v : Json} → payload_of l ≡ ok v → l ≡ value v
unfolding payload_of
payload_of-ok (value u) h = ground arith
payload_of-ok json_decode_error h = absurd (ground arith)
payload_of-ok (raised e) h = absurd (ground arith)

identity-ok :
    (guid : String) (hook_id : ℤ) {i : GitHubDeliveryIdentity}
    → github_delivery_identity guid hook_id ≡ ok i
    → (i.delivery_guid ≡ guid)
      × (i.hook_id ≡ hook_id)
      × (is_blank guid ≡ false)
      × (leb_ℤ hook_id (pos 0) ≡ false)
unfolding github_delivery_identity
identity-ok guid hook_id h = elim (Bool-cases (is_blank guid)) [
  | inl b ↦ absurd (ground (arith, b))
  | inr b ↦ elim (Bool-cases (leb_ℤ hook_id (pos 0))) [
    | inl n ↦ absurd (ground (arith, b, n))
    | inr n ↦ ground (arith, b, n)
  ]
]

attempt-ok :
    (a : DeliveryAttempt) {b : DeliveryAttempt}
    → delivery_attempt a ≡ ok b
    → (b ≡ a) × (is_naive a.received_at ≡ false)
unfolding delivery_attempt
attempt-ok a h = elim (Bool-cases (is_naive a.received_at)) [
  | inl n ↦ absurd (ground (arith, n))
  | inr n ↦ elim (Bool-cases (is_sha256_hex a.payload_sha256)) [
    | inl x ↦ ground (arith, n, x)
    | inr x ↦ absurd (ground (arith, n, x))
  ]
]

identity_eta :
    (i : GitHubDeliveryIdentity) {guid : String} {n : ℤ}
    → i.delivery_guid ≡ guid
    → i.hook_id ≡ n
    → i ≡ (record { delivery_guid = guid; hook_id = n })
identity_eta i g h = ap₂ (λ x y. record { delivery_guid = x; hook_id = y }) g h

module _ (digests : Digests) (loads : Bytes → Loaded) (secret : String) where
  -- What a delivery fulfils that becomes the attempt `a`, and how `a` is made from it.
  pub record Accepted (d : WebhookDelivery) (a : DeliveryAttempt) : Type 0 where
    pub payload : Json
    pub hook_id : ℤ
    pub secret_set : is_empty secret ≡ false
    pub signed : d.signature ≡ some (expected_signature digests d.raw_body secret)
    pub parsed : loads d.raw_body ≡ value payload
    pub hook_parsed : parse_int d.github_hook_id ≡ some hook_id
    pub hook_positive : leb_ℤ hook_id (pos 0) ≡ false
    pub guid_set : is_blank d.github_delivery ≡ false
    pub aware : is_naive d.received_at ≡ false
    pub made :
        a
        ≡ attempt_fields digests loads secret d payload
            (record { delivery_guid = d.github_delivery; hook_id = hook_id })

  accepted :
      (d : WebhookDelivery) (a : DeliveryAttempt) (is_valid : Bool) (v : Json) (n : ℤ)
      (i : GitHubDeliveryIdentity)
      → verify_github_signature digests d.raw_body d.signature secret ≡ ok is_valid
      → not is_valid ≡ false
      → loads d.raw_body ≡ value v
      → parse_int d.github_hook_id ≡ some n
      → (i.delivery_guid ≡ d.github_delivery)
        × (i.hook_id ≡ n)
        × (is_blank d.github_delivery ≡ false)
        × (leb_ℤ n (pos 0) ≡ false)
      → (a ≡ attempt_fields digests loads secret d v i) × (is_naive d.received_at ≡ false)
      → Accepted d a
  accepted d a is_valid v n i verified valid loaded number (guid, hook, guid_set, positive)
        (made, aware) =
      let (secret_set, signed) =
        (verify_github_signature-ok_true_iff digests d.raw_body d.signature secret).0
          (verified ∙ ap ok (not-false is_valid valid)) in
      record {
        payload = v;
        hook_id = n;
        secret_set = secret_set;
        signed = signed;
        parsed = loaded;
        hook_parsed = number;
        hook_positive = positive;
        guid_set = guid_set;
        aware = aware;
        made = made ∙ ap (attempt_fields digests loads secret d v) (identity_eta i guid hook);
      }

  -- Only a delivery signed under a secret that is set, whose body is JSON, whose hook id is a
  -- positive integer and whose GUID is not blank becomes an attempt, and the attempt is made from
  -- the fields of that delivery, with the digest of its body.
  pub attempt_of-Accepted :
      (d : WebhookDelivery) (a : DeliveryAttempt)
      → attempt_of digests loads secret d ≡ ok a
      → Accepted d a
  unfolding attempt_of attempt_fields
  attempt_of-Accepted d a h =
      let (is_valid, verified, h1) =
        bind-ok (verify_github_signature digests d.raw_body d.signature secret) _ h in
      let (u, passed, h2) = bind-ok (raise_if (not is_valid) invalid_webhook_signature) _ h1 in
      let (v, loaded, h3) = bind-ok (payload_of (loads d.raw_body)) _ h2 in
      let (n, number, h4) = bind-ok (or_raise (parse_int d.github_hook_id) value_error) _ h3 in
      let (i, identified, h5) = bind-ok (github_delivery_identity d.github_delivery n) _ h4 in
      accepted d a is_valid v n i verified (raise_if-ok _ _ passed) (payload_of-ok _ loaded)
        (or_raise-ok _ _ number) (identity-ok _ _ identified) (attempt-ok _ h5)

  -- Every such delivery becomes that attempt.
  pub Accepted-attempt_of :
      (d : WebhookDelivery) (a : DeliveryAttempt)
      → Accepted d a
      → attempt_of digests loads secret d ≡ ok a
  unfolding attempt_of payload_of github_delivery_identity delivery_attempt attempt_fields
  Accepted-attempt_of d a w =
      rw
        (
          (verify_github_signature-ok_true_iff digests d.raw_body d.signature secret).1
              (w.secret_set, w.signed),
          w.parsed,
          w.hook_parsed,
          w.guid_set,
          w.hook_positive,
          w.aware,
          digests.sha256_is_hex d.raw_body,
          w.made,
        )
        refl

  -- What `ingest` comes to with the in-memory store.
  pub data Ingested (d : WebhookDelivery) (s : InMemoryDeliveryStore)
      : Result DeliveryAttempt × InMemoryDeliveryStore → Type 0 where
    stored : (a : DeliveryAttempt) → Accepted d a → Ingested d s (ok a, add a s)
    rejected : (x : Exn) → ((a : DeliveryAttempt) → Accepted d a → ⊥) → Ingested d s (err x, s)

  Ingested-of :
      (d : WebhookDelivery) (s : InMemoryDeliveryStore) (r : Result DeliveryAttempt)
      → attempt_of digests loads secret d ≡ r
      → Ingested d s (continue r s (store_attempt digests loads secret memory_delivery_store))
  Ingested-of d s (ok a) h = stored a (attempt_of-Accepted d a h)
  Ingested-of d s (err x) h = rejected x (λ a w. ground (arith, h, Accepted-attempt_of d a w))

  -- Ingestion stores the attempt of a delivery that fulfils the conditions, as the newest, and
  -- returns it; of any other delivery it raises and the store stays as it is.
  pub ingest-Ingested :
      (d : WebhookDelivery) (s : InMemoryDeliveryStore)
      → Ingested d s (ingest digests loads secret memory_delivery_store d s)
  unfolding ingest
  ingest-Ingested d s = Ingested-of d s (attempt_of digests loads secret d) refl
