-- ===== src/Persistence/Deliveries/Stored.antt =====
-- The row of an attempt, and the attempt that is read from it.
use mathlib.Core.Option.{some-injective}
use github_webhook_monitor.Prelude.{
  false, ℕ, ℤ, String, not, ◌≡◌, refl, ap, sym, arith, Option, some, List, [], ◌∷◌,
}
use github_webhook_monitor.Errors.{ok, bind-ok, raise_if, raise_if-ok, value_error, ok-injective}
use github_webhook_monitor.Domain.Datetime.{Datetime, is_naive}
use github_webhook_monitor.Domain.Deliveries.{
  DeliveryAttempt, github_delivery_identity, delivery_attempt, is_sha256_hex,
}
use github_webhook_monitor.Persistence.Actions.{one_or_none}
use github_webhook_monitor.Persistence.Deliveries.{
  JoinedRow, AttemptValues, json_text, installation_target_id_to_db, installation_target_id_from_db,
  delivery_attempt_values, row_to_delivery_attempt, scalar_one,
}
use github_webhook_monitor.Persistence.Deliveries.Documented.{Stores}

-- The attempt with its target id read as a number and printed again, and with another time.
abbrev pub with_target : Option ℤ → Datetime → DeliveryAttempt → DeliveryAttempt
with_target target_id received_at attempt = record attempt {
  received_at = received_at;
  installation_target_id = installation_target_id_from_db target_id;
}

-- An attempt that its constructors accept, with texts or None for what the payload gives.
pub record Storable (attempt : DeliveryAttempt) : Type 0 where
  pub identity :
      github_delivery_identity attempt.delivery_identity.delivery_guid
        attempt.delivery_identity.hook_id
      ≡ ok attempt.delivery_identity
  pub accepted : delivery_attempt attempt ≡ ok attempt
  pub action : Option String
  pub is_action : attempt.action ≡ json_text action
  pub repository : Option String
  pub is_repository : attempt.repository ≡ json_text repository
  pub sender : Option String
  pub is_sender : attempt.sender ≡ json_text sender

pub scalar_one-ok : (ids : List ℕ) {id : ℕ} → scalar_one ids ≡ ok id → ids ≡ id ∷ []
unfolding scalar_one
scalar_one-ok [] h = absurd (ground arith)
scalar_one-ok (value ∷ []) h = ap (λ i. i ∷ []) (ok-injective h)
scalar_one-ok (value ∷ value' ∷ ids) h = absurd (ground arith)

pub one_or_none-some : (ids : List ℕ) {id : ℕ} → one_or_none ids ≡ ok (some id) → ids ≡ id ∷ []
unfolding one_or_none
one_or_none-some [] h = absurd (ground arith)
one_or_none-some (value ∷ []) h = ap (λ i. i ∷ []) (some-injective _ _ (ok-injective h))
one_or_none-some (value ∷ value' ∷ ids) h = absurd (ground arith)

abbrev pub stored_values : DeliveryAttempt → ℕ → Option ℤ → AttemptValues
stored_values attempt id target_id = record {
  attempt_id = attempt.attempt_id;
  github_delivery_id = id;
  received_at = attempt.received_at;
  payload_sha256 = attempt.payload_sha256;
  event_type = attempt.event_type;
  action = attempt.action;
  repository = attempt.repository;
  sender = attempt.sender;
  installation_target_id = target_id;
  installation_target_type = attempt.installation_target_type;
}

pub values_of :
    (attempt : DeliveryAttempt) (id : ℕ) (values : AttemptValues)
    → delivery_attempt_values attempt id ≡ ok values
    → (target_id : Option ℤ) × (installation_target_id_to_db attempt.installation_target_id
        ≡ ok target_id)
      × (values ≡ stored_values attempt id target_id)
unfolding delivery_attempt_values
values_of attempt id values h =
    let (target_id, e, h1) =
      bind-ok (installation_target_id_to_db attempt.installation_target_id) _ h in
    (target_id, e, sym (ok-injective h1))

accepted_with :
    (attempt : DeliveryAttempt) (target_id : Option ℤ) (received_at : Datetime)
    → is_naive received_at ≡ false
    → delivery_attempt attempt ≡ ok attempt
    → delivery_attempt (with_target target_id received_at attempt)
      ≡ ok (with_target target_id received_at attempt)
unfolding delivery_attempt
accepted_with attempt target_id received_at aware h =
    let (u, e, h1) = bind-ok (raise_if (is_naive attempt.received_at) value_error) _ h in
    let (v, g, h2) =
      bind-ok (raise_if (not (is_sha256_hex attempt.payload_sha256)) value_error) _ h1 in
    rw (aware, raise_if-ok _ _ g) refl

pub row-attempt :
    (attempt : DeliveryAttempt) (storable : Storable attempt) (id : ℕ) (target_id : Option ℤ)
    → (row : JoinedRow)
    → Stores row
        (stored_values attempt id target_id)
        attempt.delivery_identity.delivery_guid
        attempt.delivery_identity.hook_id
    → row_to_delivery_attempt row ≡ ok (with_target target_id row.received_at attempt)
unfolding row_to_delivery_attempt
row-attempt attempt storable id target_id row s =
    let action = s.action storable.action storable.is_action in
    let repository = s.repository storable.repository storable.is_repository in
    let sender = s.sender storable.sender storable.is_sender in
    rw
      (
        s.delivery_guid_kept,
        s.hook_id_kept,
        storable.identity,
        s.attempt_id,
        s.payload_sha256,
        s.event_type,
        action,
        repository,
        sender,
        s.installation_target_id,
        s.installation_target_type,
        sym storable.is_action,
        sym storable.is_repository,
        sym storable.is_sender,
      )
      (accepted_with attempt target_id row.received_at s.received_at-aware storable.accepted)
