-- ===== src/Api/Responses.antt =====
-- The response models of app/api/v1/models.py that the query endpoints fill, and how they are filled
-- (app/api/v1/delivery_attempts.py). A pydantic model raises a ValidationError for a value that is not of the field's type.
use github_webhook_monitor.Prelude.{ℕ, ℤ, String, Option, none, some, List, [], ◌∷◌, map}
use github_webhook_monitor.Errors.{Result, ok, err, validation_error, ◌>>=◌}
use github_webhook_monitor.Domain.Datetime.{Datetime, Uuid}
use github_webhook_monitor.Domain.Json.{Json, null, str}
use github_webhook_monitor.Domain.Deliveries.{DeliveryAttempt}
use github_webhook_monitor.Domain.RecoveryActions.{RecoveryAction}
use github_webhook_monitor.Services.Queries.{DeliveryAttemptsPage, RecoveryActionsPage}

pub record DeliveryAttemptResponse : Type 0 where
  pub attempt_id : Uuid
  pub delivery_guid : String
  pub hook_id : ℤ
  pub received_at : Datetime
  pub payload_sha256 : String
  pub event_type : String
  pub action : Option String
  pub repository : Option String
  pub sender : Option String
  pub installation_target_id : Option String
  pub installation_target_type : Option String

pub record DeliveryAttemptsListResponse : Type 0 where
  pub items : List DeliveryAttemptResponse
  pub next_cursor : Option String

pub record RecoveryActionResponse : Type 0 where
  pub action_id : Uuid
  pub action_type : String
  pub requested_at : Datetime
  pub completed_at : Option Datetime
  pub attempt_id : Uuid
  pub delivery_guid : String
  pub hook_id : ℤ
  pub repository : String
  pub github_delivery_id : ℤ
  pub authentication_method : String
  pub principal_issuer : Option String
  pub principal_subject : Option String
  pub principal_client_id : Option String
  pub authorization_capability : Option String
  pub authorization_scope : Option String
  pub state : String
  pub upstream_status_code : Option ℕ
  pub failure_category : Option String

pub record RecoveryActionsListResponse : Type 0 where
  pub items : List RecoveryActionResponse
  pub next_cursor : Option String

-- A field `str | None`.
unfoldable pub optional_text : Json → Result (Option String)
optional_text null = ok none
optional_text (str s) = ok (some s)
optional_text _ = err validation_error

unfoldable pub delivery_attempt_to_response : DeliveryAttempt → Result DeliveryAttemptResponse
unfolding optional_text
delivery_attempt_to_response attempt = do
  action ← optional_text attempt.action
  repository ← optional_text attempt.repository
  sender ← optional_text attempt.sender
  ok (record {
    attempt_id = attempt.attempt_id;
    delivery_guid = attempt.delivery_identity.delivery_guid;
    hook_id = attempt.delivery_identity.hook_id;
    received_at = attempt.received_at;
    payload_sha256 = attempt.payload_sha256;
    event_type = attempt.event_type;
    action = action;
    repository = repository;
    sender = sender;
    installation_target_id = attempt.installation_target_id;
    installation_target_type = attempt.installation_target_type;
  })

unfoldable pub recovery_action_to_response : RecoveryAction → RecoveryActionResponse
recovery_action_to_response action = record {
  action_id = action.action_id;
  action_type = action.action_type;
  requested_at = action.requested_at;
  completed_at = action.completed_at;
  attempt_id = action.attempt_id;
  delivery_guid = action.delivery_guid;
  hook_id = action.hook_id;
  repository = action.repository;
  github_delivery_id = action.github_delivery_id;
  authentication_method = action.authentication_method;
  principal_issuer = action.principal_issuer;
  principal_subject = action.principal_subject;
  principal_client_id = action.principal_client_id;
  authorization_capability = action.authorization_capability;
  authorization_scope = action.authorization_scope;
  state = action.state;
  upstream_status_code = action.upstream_status_code;
  failure_category = action.failure_category;
}

-- `[delivery_attempt_to_response(attempt) for attempt in attempts]`
unfoldable pub attempt_responses : List DeliveryAttempt → Result (List DeliveryAttemptResponse)
unfolding delivery_attempt_to_response
attempt_responses [] = ok []
attempt_responses (attempt ∷ attempts) = do
  response ← delivery_attempt_to_response attempt
  responses ← attempt_responses attempts
  ok (response ∷ responses)

unfoldable pub attempts_list_response : DeliveryAttemptsPage → Result DeliveryAttemptsListResponse
unfolding attempt_responses
attempts_list_response page = do
  items ← attempt_responses page.items
  ok (record { items = items; next_cursor = page.next_cursor })

unfoldable pub actions_list_response : RecoveryActionsPage → RecoveryActionsListResponse
unfolding recovery_action_to_response
actions_list_response page = record {
  items = map recovery_action_to_response page.items;
  next_cursor = page.next_cursor;
}
