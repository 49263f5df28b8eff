-- ===== src/Api/Queries.antt =====
-- The endpoints of app/api/v1/delivery_attempts.py that read the stores, and `/ready` and `/events`
-- of app/api/routes.py, behind their access checks. `UUID(text)` is a parameter;
-- `decode` and `encode` are the codecs of Services.Cursors.
pub mod Answered
use github_webhook_monitor.Prelude.{
  ℕ, Bool, not, String, Option, none, some, List, [], length, if◌then◌else◌,
}
use github_webhook_monitor.Errors.{
  Exn, Result, ok, err, http_exception, delivery_store_error, delivery_store_readiness_error,
  recovery_action_store_error, invalid_delivery_attempts_cursor, invalid_delivery_attempts_limit,
  invalid_recovery_actions_cursor, invalid_recovery_actions_limit, or_raise, raise_if, ◌>>=◌, ◌>>◌,
}
use github_webhook_monitor.Domain.Datetime.{Uuid}
use github_webhook_monitor.Domain.Deliveries.{DeliveryAttempt}
use github_webhook_monitor.Domain.RecoveryActions.{RecoveryAction}
use github_webhook_monitor.Storage.Keyset.{Key}
use github_webhook_monitor.Storage.Deliveries.{DeliveryStore}
use github_webhook_monitor.Storage.RecoveryActions.{RecoveryActionStore}
use github_webhook_monitor.Services.Queries.{
  DeliveryAttemptsPage, RecoveryActionsPage, parse_delivery_attempts_limit,
  parse_recovery_actions_limit, list_attempts, list_actions,
}
use github_webhook_monitor.Api.Redelivery.{found_attempt}
use github_webhook_monitor.Api.Responses.{
  DeliveryAttemptResponse, DeliveryAttemptsListResponse, RecoveryActionResponse,
  RecoveryActionsListResponse, delivery_attempt_to_response, recovery_action_to_response,
  attempts_list_response, actions_list_response,
}

abbrev pub unavailable : Exn
unavailable = http_exception 503 "Service unavailable" []

-- What the `except` clauses around a call make of its result.
abbrev pub excepting {ℓ} : {A : Type ℓ} → (Exn → Exn) → Result A → Result A
excepting handle (ok a) = ok a
excepting handle (err e) = err (handle e)

unfoldable pub attempts_error : Exn → Exn
attempts_error invalid_delivery_attempts_limit = http_exception 422 "Invalid limit" []
attempts_error invalid_delivery_attempts_cursor = http_exception 400 "Invalid or expired cursor" []
attempts_error delivery_store_error = unavailable
attempts_error e = e

unfoldable pub actions_error : Exn → Exn
actions_error invalid_recovery_actions_limit = http_exception 422 "Invalid limit" []
actions_error invalid_recovery_actions_cursor = http_exception 400 "Invalid or expired cursor" []
actions_error recovery_action_store_error = unavailable
actions_error e = e

unfoldable pub found_action : Result (Option RecoveryAction) → Result RecoveryAction
found_action (ok (some action)) = ok action
found_action (ok none) = err (http_exception 404 "Recovery action not found" [])
found_action (err recovery_action_store_error) = err unavailable
found_action (err e) = err e

unfoldable pub readiness_error : Exn → Exn
readiness_error delivery_store_readiness_error = unavailable
readiness_error e = e

-- `ready`; its answer is constant.
abbrev pub ready : Result (Unit {0}) → Result (Unit {0})
ready readiness_check = excepting readiness_error readiness_check

unfoldable pub events_error : Exn → Exn
events_error delivery_store_error = unavailable
events_error e = e

module _ (decode : String → Result Key) (encode : DeliveryAttempt → Result String)
    (delivery_store : DeliveryStore) where
  -- the `try` of `list_delivery_attempts`
  unfoldable pub attempts_page :
      Option String → Option String → delivery_store.State → Result DeliveryAttemptsPage
  attempts_page limit cursor store = do
    parsed_limit ← parse_delivery_attempts_limit limit
    list_attempts decode encode delivery_store parsed_limit cursor store

  unfoldable pub list_delivery_attempts :
      (limit cursor : Option String) → delivery_store.State → Result DeliveryAttemptsListResponse
  unfolding attempts_page attempts_error
  list_delivery_attempts limit cursor store = do
    page ← excepting attempts_error (attempts_page limit cursor store)
    attempts_list_response page

  unfoldable pub get_delivery_attempt :
      (parse_uuid : String → Option Uuid)
      → (attempt_id : String) → delivery_store.State
      → Result DeliveryAttemptResponse
  get_delivery_attempt parse_uuid attempt_id store = do
    parsed_attempt_id ←
        or_raise (parse_uuid attempt_id) (http_exception 422 "Invalid attempt_id" [])
    attempt ← found_attempt (delivery_store.get_attempt parsed_attempt_id store)
    delivery_attempt_to_response attempt

  -- `get_events`: the count and the attempts that its answer is made from
  unfoldable pub get_events : delivery_store.State → Result (ℕ × List DeliveryAttempt)
  unfolding events_error
  get_events store = do
    recent_events ← excepting events_error (delivery_store.list_recent store)
    ok (length recent_events, recent_events)

module _ (decode : String → Result Key) (encode : RecoveryAction → Result String)
    (recovery_action_store : RecoveryActionStore) (has_service : Bool) where
  unfoldable pub actions_page :
      Option String → Option String → recovery_action_store.State → Result RecoveryActionsPage
  actions_page limit cursor store = do
    parsed_limit ← parse_recovery_actions_limit limit
    list_actions decode encode recovery_action_store parsed_limit cursor store

  unfoldable pub list_recovery_actions :
      (limit cursor : Option String)
      → recovery_action_store.State
      → Result RecoveryActionsListResponse
  unfolding actions_page actions_error
  list_recovery_actions limit cursor store = do
    raise_if (not has_service) (http_exception 404 "Not found" [])
    page ← excepting actions_error (actions_page limit cursor store)
    ok (actions_list_response page)

  unfoldable pub get_recovery_action :
      (parse_uuid : String → Option Uuid)
      → (action_id : String) → recovery_action_store.State
      → Result RecoveryActionResponse
  get_recovery_action parse_uuid action_id store = do
    raise_if (not has_service) (http_exception 404 "Not found" [])
    parsed_action_id ← or_raise (parse_uuid action_id) (http_exception 422 "Invalid action_id" [])
    action ← found_action (recovery_action_store.get parsed_action_id store)
    ok (recovery_action_to_response action)
