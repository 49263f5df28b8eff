-- ===== src/Tests/Persistence.antt =====
-- The theorems on the PostgreSQL stores at concrete tables.
use github_webhook_monitor.Prelude.{
  ◌&&◌, ◌^◌, ℤ, pos, true, ◌≡◌, ◌⊎◌, refl, Option, none, some, [], ◌∷◌, map, all_chars, str_length,
  is_blank, strip, lstrip, rstrip, is_space,
}
use github_webhook_monitor.Errors.{ok, err, delivery_store_error, recovery_action_store_error}
use github_webhook_monitor.Domain.Deliveries.{
  DeliveryAttempt, github_delivery_identity, delivery_attempt, is_sha256_hex, is_hex_digit,
}
use github_webhook_monitor.Domain.RecoveryActions.{state_accepted, is_terminal}
use github_webhook_monitor.Storage.Keyset.{page}
use github_webhook_monitor.Storage.RecoveryActions.{Finalization, action_key, finalize_loop}
use github_webhook_monitor.Storage.RecoveryActions.Finalize.{Loop, returned, written}
use github_webhook_monitor.Persistence.Schema.{
  is_big_integer, is_action_storable, ActionRow, action_checks, has_text, is_action_state,
  is_status_code, is_complete,
}
use github_webhook_monitor.Persistence.Actions.{
  finalized_columns, action_values, row_to_recovery_action, finalize, list_recent,
}
use github_webhook_monitor.Persistence.Actions.Refines.{finalize-refines}
use github_webhook_monitor.Persistence.Actions.Listed.{list_recent-page}
use github_webhook_monitor.Persistence.Actions.Documented.{kept_times}
use github_webhook_monitor.Domain.Datetime.{Datetime}
use github_webhook_monitor.Persistence.Deliveries.{
  add, get_attempt, installation_target_id_to_db, add_statements, delivery_store_failure,
  delivery_id, insert_attempt_of, delivery_attempt_values,
}
use github_webhook_monitor.Persistence.Deliveries.Kept.{get_attempt-add}
use github_webhook_monitor.Persistence.Deliveries.Stored.{Storable, with_target}
use github_webhook_monitor.Services.Redelivery.{Draws, creation, settlement}
use github_webhook_monitor.Integrations.GitHub.{Reply, response}
use github_webhook_monitor.Integrations.GitHub.Client.{redelivery_result}
use github_webhook_monitor.Persistence.Actions.Checked.{submitted-checks}
use github_webhook_monitor.Tests.Data.{attempt, time, operator, granted}
use github_webhook_monitor.Tests.ActionTable.{Table, table_engine, table-Documented}
use github_webhook_monitor.Tests.AttemptTable.{
  Tables, tables_engine, HasDelivery, tables-Documented,
}

abbrev created : ActionRow
unfolding action_values
created = record {
  id = 0;
  columns = action_values (record {
    action_id = 11;
    attempt = attempt 1 5;
    repository = "octo/hello";
    github_delivery_id = pos 3;
    requested_at = time 6;
    principal = operator;
    authorization = some granted;
  });
}

abbrev one_action : Table
unfolding action_values action_checks has_text is_action_state is_status_code is_complete
    is_terminal all_chars
one_action = (created ∷ [], refl)

abbrev done : Finalization
done = record {
  action_id = 11;
  state = state_accepted;
  completed_at = time 7;
  upstream_status_code = some 202;
  failure_category = none;
}

accepted-IsTerminal : is_terminal state_accepted ≡ true
unfolding is_terminal
accepted-IsTerminal = refl

abbrev done_loop : Loop
done_loop =
    finalize_loop (kept_times table-Documented.kept done) (map row_to_recovery_action one_action.0)

finalize-refines_example :
    ((table-Documented.kept done.completed_at).instant ≡ done.completed_at.instant)
    × ((((finalize table_engine done one_action).0 ≡ returned done_loop)
          × (map row_to_recovery_action (finalize table_engine done one_action).1.0
              ≡ written (map row_to_recovery_action one_action.0) done_loop))
        ⊎ (((finalize table_engine done one_action).0 ≡ err recovery_action_store_error)
            × (((finalize table_engine done one_action).1 ≡ one_action)
                ⊎ (map row_to_recovery_action (finalize table_engine done one_action).1.0
                    ≡ written (map row_to_recovery_action one_action.0) done_loop))))
finalize-refines_example =
    finalize-refines table_engine (λ db. db.0) table-Documented done accepted-IsTerminal one_action

list_recent-page_example :
    (list_recent table_engine 5 none one_action
      ≡ ok (page action_key 5 none (map row_to_recovery_action one_action.0)))
    ⊎ (list_recent table_engine 5 none one_action ≡ err recovery_action_store_error)
list_recent-page_example =
    list_recent-page table_engine (λ db. db.0) table-Documented 5 none one_action

abbrev first_attempt : DeliveryAttempt
first_attempt = attempt 1 5

first-Storable : Storable first_attempt
unfolding github_delivery_identity delivery_attempt is_sha256_hex is_hex_digit str_length all_chars
    is_blank strip lstrip rstrip is_space
first-Storable = record {
  identity = refl;
  accepted = refl;
  action = none;
  is_action = refl;
  repository = some "octo/hello";
  is_repository = refl;
  sender = none;
  is_sender = refl;
}

abbrev empty_tables : Tables
empty_tables = record { delivery = none; joined = [] }

first_added : (add tables_engine first_attempt empty_tables).0 ≡ ok tt
unfolding add add_statements delivery_store_failure delivery_id insert_attempt_of
    delivery_attempt_values installation_target_id_to_db
first_added = refl

get_attempt-add_example :
    (target_id : Option ℤ) × (received_at : Datetime) × (installation_target_id_to_db none
      ≡ ok target_id)
    × (received_at.instant ≡ first_attempt.received_at.instant)
    × ((get_attempt tables_engine 1 (add tables_engine first_attempt empty_tables).1
          ≡ ok (some (with_target target_id received_at first_attempt)))
        ⊎ (get_attempt tables_engine 1 (add tables_engine first_attempt empty_tables).1
            ≡ err delivery_store_error))
get_attempt-add_example =
    get_attempt-add tables_engine HasDelivery (λ db. db.joined) tables-Documented first_attempt
      first-Storable empty_tables first_added

abbrev draws : Draws
draws = record { action_id = 11; requested_at = time 6; completed_at = time 7 }

abbrev accepted_reply : Reply
accepted_reply = response (record { status_code = 202; header = λ name. none; json = none })

submitted-checks_example :
    (is_action_storable
        (action_values (creation draws first_attempt ("octo", "hello") (pos (2 ^ 63)) granted))
      ≡ (is_big_integer first_attempt.delivery_identity.hook_id && is_big_integer (pos (2 ^ 63))))
    × (is_action_storable (
          finalized_columns done
            (action_values (creation draws first_attempt ("octo", "hello") (pos (2 ^ 63)) granted)))
        ≡ (is_big_integer first_attempt.delivery_identity.hook_id && is_big_integer (pos (2 ^ 63))))
unfolding github_delivery_identity is_status_code settlement redelivery_result is_blank strip lstrip
    rstrip is_space
submitted-checks_example =
    submitted-checks draws first_attempt ("octo", "hello") (pos (2 ^ 63)) granted accepted_reply
      done first_attempt.delivery_identity refl refl refl refl refl
