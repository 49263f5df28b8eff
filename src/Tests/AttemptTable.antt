-- ===== src/Tests/AttemptTable.antt =====
-- Tables with room for one delivery and its attempts, as an engine for the tests.
use mathlib.Core.Option.{some-injective}
use github_webhook_monitor.Prelude.{
  pos, ℕ, ℤ, String, Bool, ◌≡◌, inl, inr, refl, ap, sym, arith, Bool-cases, eq_iff, eq_ℤ, eq_ℤ→eq,
  ◌&&◌, str_eq, Option, none, some, List, [], ◌∷◌, keep, if◌then◌else◌,
}
use github_webhook_monitor.Errors.{Result, ok, err, sqlalchemy_error, ok-injective}
use github_webhook_monitor.Domain.Json.{Json, as_text}
use github_webhook_monitor.Storage.Keyset.{page}
use github_webhook_monitor.Persistence.Schema.{DeliveryRow}
use github_webhook_monitor.Persistence.Deliveries.{
  DeliveryEngine, JoinedRow, AttemptValues, json_text, has_attempt_id,
}
use github_webhook_monitor.Persistence.Deliveries.Documented.{Documented, Stores}

pub record Tables : Type 0 where
  pub delivery : Option (String × ℤ)
  pub joined : List JoinedRow

abbrev commit {ℓ} : {A : Type ℓ} → Tables → Result A × Tables → Result A × Tables
commit before (ok a, after) = (ok a, after)
commit before (err x, after) = (err x, before)

abbrev is_identity : String → ℤ → String × ℤ → Bool
is_identity guid hook_id (g, h) = str_eq g guid && eq_ℤ h hook_id

abbrev insert_delivery_into : String → ℤ → Tables → Option (String × ℤ) → Result (List ℕ) × Tables
insert_delivery_into guid hook_id db none =
    (ok (1 ∷ []), record db { delivery = some (guid, hook_id) })
insert_delivery_into guid hook_id db (some identity) =
    if is_identity guid hook_id identity then (ok [], db) else (err sqlalchemy_error, db)

abbrev ids_of : String → ℤ → Option (String × ℤ) → List ℕ
ids_of guid hook_id none = []
ids_of guid hook_id (some identity) = if is_identity guid hook_id identity then 1 ∷ [] else []

abbrev joined_row : AttemptValues → String × ℤ → JoinedRow
joined_row values identity = record {
  id = 1;
  attempt_id = values.attempt_id;
  delivery_guid = identity.0;
  hook_id = identity.1;
  received_at = record { instant = values.received_at.instant; utcoffset = some (pos 0) };
  payload_sha256 = values.payload_sha256;
  event_type = values.event_type;
  action = as_text values.action;
  repository = as_text values.repository;
  sender = as_text values.sender;
  installation_target_id = values.installation_target_id;
  installation_target_type = values.installation_target_type;
}

abbrev attempt_into :
    AttemptValues → Tables → Option (String × ℤ) → List JoinedRow → Result (Unit {0}) × Tables
attempt_into values db (some identity) [] =
    (ok tt, record db { joined = joined_row values identity ∷ db.joined })
attempt_into values db identity same = (err sqlalchemy_error, db)

abbrev pub tables_engine : DeliveryEngine
tables_engine = record {
  Db = Tables;
  begin = λ t db. commit db (t db);
  insert_delivery = λ guid hook_id db. insert_delivery_into guid hook_id db db.delivery;
  select_delivery_ids = λ guid hook_id db. ok (ids_of guid hook_id db.delivery);
  insert_attempt = λ values db.
      attempt_into values db db.delivery (keep (has_attempt_id values.attempt_id) db.joined);
  select_where = λ where_clause db. ok (keep where_clause db.joined);
  select_page =
      λ where_clause order_by limit db. ok (page order_by limit none (keep where_clause db.joined));
}

abbrev pub HasDelivery : Tables → DeliveryRow → Type 0
HasDelivery db row = db.delivery ≡ some (row.delivery_guid, row.hook_id)

commit-ok {ℓ} :
    {A : Type ℓ} (db : Tables) (r : Result A × Tables) (a : A)
    → (commit db r).0 ≡ ok a
    → commit db r ≡ r
commit-ok db (ok b, after) a h = refl
commit-ok db (err x, after) a h = absurd (ground arith)

module _ (guid : String) (hook_id : ℤ) (db : Tables) where
  inserted :
      (o : Option (String × ℤ)) (id : ℕ)
      → (insert_delivery_into guid hook_id db o).0 ≡ ok (id ∷ [])
      → (insert_delivery_into guid hook_id db o).1.delivery ≡ some (guid, hook_id)
  inserted none id h = refl
  inserted (some (g, k)) id h = elim (Bool-cases (is_identity guid hook_id (g, k))) [
    | inl same ↦ absurd (ground (arith, rw same at h))
    | inr other ↦ absurd (ground (arith, rw other at h))
  ]

  joined_kept :
      (o : Option (String × ℤ)) → (insert_delivery_into guid hook_id db o).1.joined ≡ db.joined
  joined_kept none = refl
  joined_kept (some identity) = elim (Bool-cases (is_identity guid hook_id identity)) [
    | inl same ↦ rw same refl
    | inr other ↦ rw other refl
  ]

  listed_identity :
      (o : Option (String × ℤ)) (id : ℕ)
      → ok (ids_of guid hook_id o) ≡ ok (id ∷ [])
      → o ≡ some (guid, hook_id)
  listed_identity none id h = absurd (ground (arith, h))
  listed_identity (some (g, k)) id h = elim (Bool-cases (is_identity guid hook_id (g, k))) [
    | inl same ↦
        let text = (eq_iff g guid).0 (ground (arith, same)) in
        let number = eq_ℤ→eq k hook_id (ground (arith, same)) in rw (text, number) refl
    | inr other ↦ absurd (ground (arith, rw other at h))
  ]

kept_text : (value : Json) (text : Option String) → value ≡ json_text text → as_text value ≡ text
unfolding as_text
kept_text value none h = rw h refl
kept_text value (some text) h = rw h refl

attempt_stored :
    (values : AttemptValues) (db : Tables) (identity : Option (String × ℤ)) (same : List JoinedRow)
    → (guid : String) (hook_id : ℤ) → (attempt_into values db identity same).0 ≡ ok tt
    → identity ≡ some (guid, hook_id)
    → (row : JoinedRow) × Stores row values guid hook_id
      × ((attempt_into values db identity same).1.joined ≡ row ∷ db.joined)
      × (same ≡ [])
attempt_stored values db (some identity) [] guid hook_id h e = (
  joined_row values identity,
  record {
    attempt_id = refl;
    delivery_guid_kept = ap (λ p. p.0) (some-injective _ _ e);
    hook_id_kept = ap (λ p. p.1) (some-injective _ _ e);
    received_at = refl;
    received_at-aware = refl;
    payload_sha256 = refl;
    event_type = refl;
    action = kept_text values.action;
    repository = kept_text values.repository;
    sender = kept_text values.sender;
    installation_target_id = refl;
    installation_target_type = refl;
  },
  refl,
  refl,
)
attempt_stored values db none same guid hook_id h e = absurd (ground arith)
attempt_stored values db (some identity) (row ∷ rows) guid hook_id h e = absurd (ground arith)

pub tables-Documented : Documented tables_engine HasDelivery (λ db. db.joined)
tables-Documented = record {
  committed = λ t db a h. commit-ok db (t db) a h;
  delivery_inserted = λ guid hook_id db id h. inserted guid hook_id db db.delivery id h;
  delivery_kept = λ guid hook_id db ids h. joined_kept guid hook_id db db.delivery;
  delivery_selected = λ guid hook_id db id h. listed_identity guid hook_id db db.delivery id h;
  attempt_inserted =
      λ values db guid hook_id h e. attempt_stored values db db.delivery _ guid hook_id h e;
  selected = λ where_clause db out h few. sym (ok-injective h);
  select_error = λ where_clause db x h. absurd (ground (arith, h));
}
