-- ===== src/Persistence/Deliveries/Documented.antt =====
-- What the delivery store relies on of PostgreSQL and SQLAlchemy while no other transaction runs:
-- isolation is PostgreSQL's default, READ COMMITTED, and what a transaction sees of others is left out.
use github_webhook_monitor.Prelude.{
  ℕ, ℤ, String, Bool, false, ◌≡◌, ◌≤◌, Option, List, [], ◌∷◌, keep, length,
}
use github_webhook_monitor.Errors.{Exn, ok, err, sqlalchemy_error}
use github_webhook_monitor.Domain.Datetime.{is_naive}
use github_webhook_monitor.Services.Exec.{Exec}
use github_webhook_monitor.Persistence.Schema.{DeliveryRow}
use github_webhook_monitor.Persistence.Deliveries.{
  DeliveryEngine, JoinedRow, AttemptValues, json_text, has_attempt_id,
}

abbrev pub delivery_row : ℕ → String → ℤ → DeliveryRow
delivery_row id delivery_guid hook_id = record {
  id = id;
  delivery_guid = delivery_guid;
  hook_id = hook_id;
}

-- The joined row of stored values; a text or None is stored as it is. A `timestamptz` column keeps the
-- instant, but not the offset: its value has the offset of the session's time zone.
pub record Stores (row : JoinedRow) (values : AttemptValues) (delivery_guid : String) (hook_id : ℤ)
    : Type 0 where
  pub attempt_id : row.attempt_id ≡ values.attempt_id
  pub delivery_guid_kept : row.delivery_guid ≡ delivery_guid
  pub hook_id_kept : row.hook_id ≡ hook_id
  pub received_at : row.received_at.instant ≡ values.received_at.instant
  pub received_at-aware : is_naive row.received_at ≡ false
  pub payload_sha256 : row.payload_sha256 ≡ values.payload_sha256
  pub event_type : row.event_type ≡ values.event_type
  pub action : (text : Option String) → values.action ≡ json_text text → row.action ≡ text
  pub repository :
      (text : Option String) → values.repository ≡ json_text text → row.repository ≡ text
  pub sender : (text : Option String) → values.sender ≡ json_text text → row.sender ≡ text
  pub installation_target_id : row.installation_target_id ≡ values.installation_target_id
  pub installation_target_type : row.installation_target_type ≡ values.installation_target_type

-- `HasDelivery db row`: the row is in `github_deliveries`. `joined db` are the rows of the base
-- statement without a condition, in the order of the attempts' ids, the last first.
pub record Documented (e : DeliveryEngine) (HasDelivery : e.Db → DeliveryRow → Type 0)
    (joined : e.Db → List JoinedRow) : Type 1 where
  pub committed :
      {A : Type 0} (t : Exec e.Db A) (db : e.Db) (a : A)
      → (e.begin t db).0 ≡ ok a
      → e.begin t db ≡ t db
  pub delivery_inserted :
      (guid : String) (hook_id : ℤ) (db : e.Db) (id : ℕ)
      → (e.insert_delivery guid hook_id db).0 ≡ ok (id ∷ [])
      → HasDelivery ((e.insert_delivery guid hook_id db).1) (delivery_row id guid hook_id)
  pub delivery_kept :
      (guid : String) (hook_id : ℤ) (db : e.Db) (ids : List ℕ)
      → (e.insert_delivery guid hook_id db).0 ≡ ok ids
      → joined ((e.insert_delivery guid hook_id db).1) ≡ joined db
  pub delivery_selected :
      (guid : String) (hook_id : ℤ) (db : e.Db) (id : ℕ)
      → e.select_delivery_ids guid hook_id db ≡ ok (id ∷ [])
      → HasDelivery db (delivery_row id guid hook_id)
  -- with the unique constraint on `attempt_id`
  pub attempt_inserted :
      (values : AttemptValues) (db : e.Db) (guid : String) (hook_id : ℤ)
      → (e.insert_attempt values db).0 ≡ ok tt
      → HasDelivery db (delivery_row values.github_delivery_id guid hook_id)
      → (row : JoinedRow) × Stores row values guid hook_id
        × (joined ((e.insert_attempt values db).1) ≡ row ∷ joined db)
        × (keep (has_attempt_id values.attempt_id) (joined db) ≡ [])
  -- rows come in no order that is promised, which does not matter for one
  pub selected :
      (where_clause : JoinedRow → Bool) (db : e.Db) (out : List JoinedRow)
      → e.select_where where_clause db ≡ ok out
      → length (keep where_clause (joined db)) ≤ 1
      → out ≡ keep where_clause (joined db)
  pub select_error :
      (where_clause : JoinedRow → Bool) (db : e.Db) (x : Exn)
      → e.select_where where_clause db ≡ err x
      → x ≡ sqlalchemy_error
