-- ===== src/Persistence/Actions.antt =====
-- `PostgresRecoveryActionStore` of app/persistence/postgres.py. PostgreSQL and SQLAlchemy are
-- parameters: an engine that runs the statements which the store builds. `uuid4()` is an argument.
pub mod Checked
pub mod Documented
pub mod Listed
pub mod Refines
pub mod Rows
use github_webhook_monitor.Prelude.{
  ℕ, Bool, true, not, ◌&&◌, Option, none, some, List, [], ◌∷◌, map, ◌==◌, str_eq, if◌then◌else◌,
}
use github_webhook_monitor.Errors.{
  Result, ok, err, sqlalchemy_error, recovery_action_store_error, recovery_action_not_found,
  invalid_recovery_action_transition,
}
use github_webhook_monitor.Domain.Datetime.{Uuid}
use github_webhook_monitor.Domain.RecoveryActions.{
  RecoveryAction, type_github_redelivery, state_initiated, is_terminal,
}
use github_webhook_monitor.Storage.Keyset.{Key, key_ltb}
use github_webhook_monitor.Storage.RecoveryActions.{
  Creation, Finalization, RecoveryActionStore, capability_of, scope_of,
}
use github_webhook_monitor.Services.Exec.{Exec, return, pure, ◌>>=◌}
use github_webhook_monitor.Persistence.Schema.{ActionColumns, ActionRow}

-- The statements on the table `recovery_actions`. `begin` runs statements in a transaction.
pub record ActionEngine : Type 1 where
  pub Db : Type 0
  pub begin : {A : Type 0} → Exec Db A → Exec Db A
  pub insert : ActionColumns → Exec Db ActionRow
  pub update : (ActionColumns → Bool) → (ActionColumns → ActionColumns) → Exec Db (List ActionRow)
  pub select_where : (ActionColumns → Bool) → Db → Result (List ActionRow)
  pub select_page :
      (ActionColumns → Bool)
      → (order_by : ActionColumns → Key) → (limit : ℕ) → Db
      → Result (List ActionRow)

unfoldable pub row_to_recovery_action : ActionRow → RecoveryAction
row_to_recovery_action row = record {
  action_id = row.columns.action_id;
  action_type = row.columns.action_type;
  requested_at = row.columns.requested_at;
  completed_at = row.columns.completed_at;
  attempt_id = row.columns.attempt_id;
  delivery_guid = row.columns.delivery_guid;
  hook_id = row.columns.hook_id;
  repository = row.columns.repository;
  github_delivery_id = row.columns.github_delivery_id;
  authentication_method = row.columns.authentication_method;
  principal_issuer = row.columns.principal_issuer;
  principal_subject = row.columns.principal_subject;
  principal_client_id = row.columns.principal_client_id;
  authorization_capability = row.columns.authorization_capability;
  authorization_scope = row.columns.authorization_scope;
  state = row.columns.state;
  upstream_status_code = row.columns.upstream_status_code;
  failure_category = row.columns.failure_category;
}

-- The dict of values for the new row.
unfoldable pub action_values : Creation → ActionColumns
action_values c = record {
  action_id = c.action_id;
  action_type = type_github_redelivery;
  requested_at = c.requested_at;
  completed_at = none;
  attempt_id = c.attempt.attempt_id;
  delivery_guid = c.attempt.delivery_identity.delivery_guid;
  hook_id = c.attempt.delivery_identity.hook_id;
  repository = c.repository;
  github_delivery_id = c.github_delivery_id;
  authentication_method = c.principal.authentication_method;
  principal_issuer = c.principal.issuer;
  principal_subject = c.principal.subject;
  principal_client_id = c.principal.client_id;
  authorization_capability = capability_of c.authorization;
  authorization_scope = scope_of c.authorization;
  state = state_initiated;
  upstream_status_code = none;
  failure_category = none;
}

-- `except SQLAlchemyError: raise RecoveryActionStoreError`
unfoldable pub action_store_error {ℓ} : {A : Type ℓ} → Result A → Result A
action_store_error (ok a) = ok a
action_store_error (err sqlalchemy_error) = err recovery_action_store_error
action_store_error (err e) = err e

-- `one_or_none()`: more than one row raises MultipleResultsFound, an SQLAlchemyError.
unfoldable pub one_or_none {ℓ} : {A : Type ℓ} → List A → Result (Option A)
one_or_none [] = ok none
one_or_none (row ∷ []) = ok (some row)
one_or_none (row ∷ row' ∷ rows) = err sqlalchemy_error

abbrev pub only_row {ℓ} : {A : Type ℓ} → Result (List A) → Result (Option A)
only_row (ok rows) = one_or_none rows
only_row (err e) = err e

abbrev pub unmatched : Result (Option ActionRow) → Result (Option ActionRow × Option ActionRow)
unmatched (ok existing) = ok (none, existing)
unmatched (err e) = err e

abbrev pub shown_as : Result (Option ActionRow) → Result (Option RecoveryAction)
shown_as (ok none) = ok none
shown_as (ok (some row)) = ok (some (row_to_recovery_action row))
shown_as (err e) = err e

abbrev pub actions_of : Result (List ActionRow) → Result (List RecoveryAction)
actions_of (ok rows) = ok (map row_to_recovery_action rows)
actions_of (err e) = err e

abbrev pub action_of : Result ActionRow → Result RecoveryAction
action_of (ok row) = ok (row_to_recovery_action row)
action_of (err e) = err e

-- the columns that `finalize` sets
unfoldable pub finalized_columns : Finalization → ActionColumns → ActionColumns
finalized_columns f columns = record columns {
  state = f.state;
  completed_at = some f.completed_at;
  upstream_status_code = f.upstream_status_code;
  failure_category = f.failure_category;
}

abbrev pub has_id : Uuid → ActionColumns → Bool
has_id action_id columns = columns.action_id == action_id

abbrev pub is_open : Uuid → ActionColumns → Bool
is_open action_id columns = columns.action_id == action_id && str_eq columns.state state_initiated

-- the end of `finalize`: the row that was updated and, if there was none, the one with the id
unfoldable pub decided : Result (Option ActionRow × Option ActionRow) → Result RecoveryAction
unfolding row_to_recovery_action
decided (ok (some row, existing)) = ok (row_to_recovery_action row)
decided (ok (none, none)) = err recovery_action_not_found
decided (ok (none, some existing)) = err invalid_recovery_action_transition
decided (err e) = err e

abbrev pub columns_key : ActionColumns → Key
columns_key columns = (columns.requested_at.instant, columns.action_id)

abbrev pub is_after : Option Key → ActionColumns → Bool
is_after none columns = true
is_after (some after) columns = key_ltb (columns_key columns) after

module _ (e : ActionEngine) where
  unfoldable pub create_initiated_github_redelivery : Creation → e.Db → Result RecoveryAction × e.Db
  unfolding action_values row_to_recovery_action action_store_error
  create_initiated_github_redelivery c db =
      let (r, db') = e.begin (e.insert (action_values c)) db in
      (action_of (action_store_error r), db')

  unfoldable pub existing_row :
      Uuid → Option ActionRow → Exec e.Db (Option ActionRow × Option ActionRow)
  unfolding one_or_none
  existing_row action_id (some row) db = return (some row, none) db
  existing_row action_id none db = (unmatched (only_row (e.select_where (has_id action_id) db)), db)

  -- the statements of `finalize`
  unfoldable pub finalize_statements :
      Finalization → Exec e.Db (Option ActionRow × Option ActionRow)
  unfolding one_or_none existing_row finalized_columns
  finalize_statements f = do
    rows ← e.update (is_open f.action_id) (finalized_columns f)
    row ← pure (one_or_none rows)
    existing_row f.action_id row

  unfoldable pub finalize : Finalization → e.Db → Result RecoveryAction × e.Db
  unfolding finalize_statements action_store_error decided
  finalize f db =
      if not (is_terminal f.state)
      then (err invalid_recovery_action_transition, db)
      else (let (r, db') = e.begin (finalize_statements f) db in
          (decided (action_store_error r), db'))

  unfoldable pub get : Uuid → e.Db → Result (Option RecoveryAction)
  unfolding one_or_none row_to_recovery_action
  get action_id db = shown_as (action_store_error (only_row (e.select_where (has_id action_id) db)))

  unfoldable pub list_recent : ℕ → Option Key → e.Db → Result (List RecoveryAction)
  unfolding row_to_recovery_action
  list_recent limit after db =
      actions_of (action_store_error (e.select_page (is_after after) columns_key limit db))

  abbrev pub postgres_recovery_action_store : RecoveryActionStore
  postgres_recovery_action_store = record {
    State = e.Db;
    create_initiated_github_redelivery = create_initiated_github_redelivery;
    finalize = finalize;
    get = get;
    list_recent = list_recent;
  }
