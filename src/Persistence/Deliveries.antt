-- ===== src/Persistence/Deliveries.antt =====
-- `PostgresDeliveryStore` of app/persistence/postgres.py. PostgreSQL and SQLAlchemy are parameters:
-- an engine that runs the statements which the store builds.
pub mod Documented
pub mod Kept
pub mod Stored
use github_webhook_monitor.Prelude.{
  ℕ, ℤ, String, Bool, true, Option, none, some, List, [], ◌∷◌, ◌==◌, pos, leb_ℤ, parse_int, str_int,
  if◌then◌else◌,
}
use github_webhook_monitor.Errors.{
  Result, ok, err, sqlalchemy_error, delivery_store_error, value_error, ◌>>=◌, or_raise,
}
use github_webhook_monitor.Domain.Datetime.{Datetime, Uuid}
use github_webhook_monitor.Domain.Json.{Json, null, str}
use github_webhook_monitor.Domain.Deliveries.{
  DeliveryAttempt, github_delivery_identity, delivery_attempt,
}
use github_webhook_monitor.Storage.Keyset.{Key, key_ltb}
use github_webhook_monitor.Storage.Deliveries.{DeliveryStore}
use github_webhook_monitor.Services.Exec.{Exec, continue}
use github_webhook_monitor.Persistence.Actions.{one_or_none, only_row}

-- The columns of `_base_attempts_statement`, and the attempt's `id`, which `_recent_attempts_statement`
-- orders by.
pub record JoinedRow : Type 0 where
  pub id : ℕ
  pub attempt_id : Uuid
  pub delivery_guid : String
  pub hook_id : ℤ
  pub received_at : Datetime
  pub payload_sha256 : String
  pub event_type : String
  pub action : Option String
  pub repository : Option String
  pub sender : Option String
  pub installation_target_id : Option ℤ
  pub installation_target_type : Option String

-- The dict of values for a new row of `delivery_attempts`.
pub record AttemptValues : Type 0 where
  pub attempt_id : Uuid
  pub github_delivery_id : ℕ
  pub received_at : Datetime
  pub payload_sha256 : String
  pub event_type : String
  pub action : Json
  pub repository : Json
  pub sender : Json
  pub installation_target_id : Option ℤ
  pub installation_target_type : Option String

-- The statements on the tables `github_deliveries` and `delivery_attempts`. `insert_delivery` has
-- ON CONFLICT DO NOTHING and returns the ids of the rows that it inserts.
pub record DeliveryEngine : Type 1 where
  pub Db : Type 0
  pub begin : {A : Type 0} → Exec Db A → Exec Db A
  pub insert_delivery : (delivery_guid : String) (hook_id : ℤ) → Exec Db (List ℕ)
  pub select_delivery_ids : (delivery_guid : String) (hook_id : ℤ) → Db → Result (List ℕ)
  pub insert_attempt : AttemptValues → Exec Db (Unit {0})
  pub select_where : (JoinedRow → Bool) → Db → Result (List JoinedRow)
  pub select_page :
      (JoinedRow → Bool) → (order_by : JoinedRow → Key) → (limit : ℕ) → Db → Result (List JoinedRow)

-- `_installation_target_id_to_db`
unfoldable pub installation_target_id_to_db : Option String → Result (Option ℤ)
installation_target_id_to_db none = ok none
installation_target_id_to_db (some value) = do
  number ← or_raise (parse_int value) value_error
  ok (some number)

-- `_installation_target_id_from_db`
unfoldable pub installation_target_id_from_db : Option ℤ → Option String
unfolding str_int
installation_target_id_from_db none = none
installation_target_id_from_db (some value) = some (str_int value)

unfoldable pub delivery_attempt_values : DeliveryAttempt → ℕ → Result AttemptValues
unfolding installation_target_id_to_db
delivery_attempt_values attempt github_delivery_id = do
  target_id ← installation_target_id_to_db attempt.installation_target_id
  ok (record {
    attempt_id = attempt.attempt_id;
    github_delivery_id = github_delivery_id;
    received_at = attempt.received_at;
    payload_sha256 = attempt.payload_sha256;
    event_type = attempt.event_type;
    action = attempt.action;
    repository = attempt.repository;
    sender = attempt.sender;
    installation_target_id = target_id;
    installation_target_type = attempt.installation_target_type;
  })

abbrev pub json_text : Option String → Json
json_text none = null
json_text (some text) = str text

unfoldable pub row_to_delivery_attempt : JoinedRow → Result DeliveryAttempt
row_to_delivery_attempt row = do
  identity ← github_delivery_identity row.delivery_guid row.hook_id
  delivery_attempt (record {
    attempt_id = row.attempt_id;
    delivery_identity = identity;
    received_at = row.received_at;
    payload_sha256 = row.payload_sha256;
    event_type = row.event_type;
    action = json_text row.action;
    repository = json_text row.repository;
    sender = json_text row.sender;
    installation_target_id = installation_target_id_from_db row.installation_target_id;
    installation_target_type = row.installation_target_type;
  })

-- `except SQLAlchemyError: raise DeliveryStoreError`
unfoldable pub delivery_store_failure {ℓ} : {A : Type ℓ} → Result A → Result A
delivery_store_failure (ok a) = ok a
delivery_store_failure (err sqlalchemy_error) = err delivery_store_error
delivery_store_failure (err e) = err e

-- `[row_to_delivery_attempt(row) for row in rows]`
unfoldable pub attempts_of : List JoinedRow → Result (List DeliveryAttempt)
unfolding row_to_delivery_attempt
attempts_of [] = ok []
attempts_of (row ∷ rows) = do
  attempt ← row_to_delivery_attempt row
  attempts ← attempts_of rows
  ok (attempt ∷ attempts)

-- `scalar_one()`: NoResultFound and MultipleResultsFound are SQLAlchemyErrors.
unfoldable pub scalar_one : List ℕ → Result ℕ
scalar_one (value ∷ []) = ok value
scalar_one values = err sqlalchemy_error

-- The base statement with a condition on the keyset.
abbrev pub joined_key : JoinedRow → Key
joined_key row = (row.received_at.instant, row.attempt_id)

abbrev pub is_joined_after : Option Key → JoinedRow → Bool
is_joined_after none row = true
is_joined_after (some after) row = key_ltb (joined_key row) after

abbrev pub has_attempt_id : Uuid → JoinedRow → Bool
has_attempt_id attempt_id row = row.attempt_id == attempt_id

abbrev recent_key : JoinedRow → Key
recent_key row = (row.received_at.instant, row.id)

abbrev attempt_if_found : Option JoinedRow → Result (Option DeliveryAttempt)
attempt_if_found none = ok none
attempt_if_found (some row) = do attempt ← row_to_delivery_attempt row; ok (some attempt)

-- the check of `__init__`
unfoldable pub checked_list_limit : ℤ → Result ℤ
checked_list_limit list_limit = if leb_ℤ list_limit (pos 0) then err value_error else ok list_limit

module _ (e : DeliveryEngine) where
  abbrev insert_values : Result AttemptValues → Exec e.Db (Unit {0})
  insert_values r db = continue r db e.insert_attempt

  -- the insertion of the attempt, once the delivery's id is known
  unfoldable pub insert_attempt_of : DeliveryAttempt → ℕ → Exec e.Db (Unit {0})
  unfolding delivery_attempt_values
  insert_attempt_of attempt github_delivery_id =
      insert_values (delivery_attempt_values attempt github_delivery_id)

  -- the id of the delivery: the one inserted, or else the one that is there
  unfoldable pub delivery_id : DeliveryAttempt → Option ℕ → e.Db → Result ℕ
  unfolding scalar_one
  delivery_id attempt (some github_delivery_id) db = ok github_delivery_id
  delivery_id attempt none db = do
    ids ←
        e.select_delivery_ids attempt.delivery_identity.delivery_guid
          attempt.delivery_identity.hook_id db
    scalar_one ids

  abbrev add_inserted : DeliveryAttempt → List ℕ → Exec e.Db (Unit {0})
  add_inserted attempt ids db =
      continue (do inserted ← one_or_none ids; delivery_id attempt inserted db) db
        (insert_attempt_of attempt)

  -- the statements of `add`
  unfoldable pub add_statements : DeliveryAttempt → Exec e.Db (Unit {0})
  unfolding one_or_none delivery_id insert_attempt_of
  add_statements attempt db =
      let (inserted, db') =
        e.insert_delivery attempt.delivery_identity.delivery_guid attempt.delivery_identity.hook_id
          db in
      continue inserted db' (add_inserted attempt)

  unfoldable pub add : DeliveryAttempt → e.Db → Result (Unit {0}) × e.Db
  unfolding add_statements delivery_store_failure
  add attempt db =
      let (r, db') = e.begin (add_statements attempt) db in (delivery_store_failure r, db')

  unfoldable pub list_recent : (list_limit : ℕ) → e.Db → Result (List DeliveryAttempt)
  unfolding attempts_of delivery_store_failure
  list_recent list_limit db = do
    rows ← delivery_store_failure (e.select_page (λ row. true) recent_key list_limit db)
    attempts_of rows

  unfoldable pub list_attempts_page : ℕ → Option Key → e.Db → Result (List DeliveryAttempt)
  unfolding attempts_of delivery_store_failure
  list_attempts_page limit after db = do
    rows ← delivery_store_failure (e.select_page (is_joined_after after) joined_key limit db)
    attempts_of rows

  unfoldable pub get_attempt : Uuid → e.Db → Result (Option DeliveryAttempt)
  unfolding row_to_delivery_attempt delivery_store_failure one_or_none
  get_attempt attempt_id db = do
    row ← delivery_store_failure (only_row (e.select_where (has_attempt_id attempt_id) db))
    attempt_if_found row

  abbrev pub postgres_delivery_store : (list_limit : ℕ) → DeliveryStore
  postgres_delivery_store list_limit = record {
    State = e.Db;
    add = add;
    list_recent = list_recent list_limit;
    list_attempts_page = list_attempts_page;
    get_attempt = get_attempt;
  }
