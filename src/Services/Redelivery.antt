-- ===== src/Services/Redelivery.antt =====
-- app/services/github_redelivery.py: one verified request to GitHub to deliver again, written to
-- the journal before it is sent and finished there after the answer.
pub mod Verified
pub mod Settled
use github_webhook_monitor.Prelude.{
  ℕ, ℤ, String, Bool, not, ◌||◌, Option, none, some, find, is_empty, str_eq, eq_ℤ, if◌then◌else◌,
  ◌<>◌,
}
use github_webhook_monitor.Errors.{
  Result, ok, err, recovery_action_store_error, redelivery_disabled, unverified_redelivery_target,
  redelivery_journal_unavailable, upstream_unavailable, upstream_protocol,
  redelivery_outcome_unknown,
}
use github_webhook_monitor.Domain.Datetime.{Datetime, Uuid}
use github_webhook_monitor.Domain.Deliveries.{DeliveryAttempt}
use github_webhook_monitor.Domain.Management.{ManagementAuthorization, recovery_execute}
use github_webhook_monitor.Domain.RecoveryActions.{
  RecoveryAction, state_accepted, state_failed, state_outcome_unknown,
}
use github_webhook_monitor.Integrations.GitHub.{GitHubDeliverySummary}
use github_webhook_monitor.Storage.RecoveryActions.{Creation, Finalization, RecoveryActionStore}
use github_webhook_monitor.Services.Exec.{Exec, raise, pure, ◌>>=◌}
use github_webhook_monitor.Services.Reconciliation.{
  ListDeliveries, GitHubReconciliationResult, repository_coordinates, reconcile,
}

-- `request_repository_webhook_redelivery(owner, repository, hook_id, github_delivery_id)`
abbrev pub RequestRedelivery : Type 0 → Type 0
RequestRedelivery W = String → String → ℤ → ℤ → Exec W (Unit {0})

pub record GitHubRedeliveryResult : Type 0 where
  pub action_id : Uuid
  pub attempt : DeliveryAttempt
  pub github_delivery_id : ℤ
  pub status : String

-- What one request draws from `uuid4()` and reads from the clock.
pub record Draws : Type 0 where
  pub action_id : Uuid
  pub requested_at : Datetime
  pub completed_at : Datetime

-- `text or default`
or_default_text : Option String → String → String
or_default_text none d = d
or_default_text (some s) d = if is_empty s then d else s

-- The state, status code and failure category that the answer to the request calls for; none where
-- the exception is none that the method catches.
unfoldable pub settlement : Draws → Result (Unit {0}) → Option Finalization
unfolding or_default_text
settlement draws (ok _) = some (record {
  action_id = draws.action_id;
  state = state_accepted;
  completed_at = draws.completed_at;
  upstream_status_code = some 202;
  failure_category = none;
})
settlement draws (err (redelivery_outcome_unknown _ _)) = some (record {
  action_id = draws.action_id;
  state = state_outcome_unknown;
  completed_at = draws.completed_at;
  upstream_status_code = none;
  failure_category = some "outcome_unknown";
})
settlement draws (err (upstream_protocol status_code category)) = some (record {
  action_id = draws.action_id;
  state = state_failed;
  completed_at = draws.completed_at;
  upstream_status_code = status_code;
  failure_category = some (or_default_text category "upstream_protocol");
})
settlement draws (err (upstream_unavailable status_code category)) = some (record {
  action_id = draws.action_id;
  state = state_failed;
  completed_at = draws.completed_at;
  upstream_status_code = status_code;
  failure_category = some (or_default_text category "upstream_unavailable");
})
settlement draws (err _) = none

-- `except RecoveryActionStoreError: raise GitHubRedeliveryJournalUnavailableError`
unfoldable pub journal_error {ℓ} : {A : Type ℓ} → Result A → Result A
journal_error (ok a) = ok a
journal_error (err recovery_action_store_error) = err redelivery_journal_unavailable
journal_error (err e) = err e

unfoldable pub creation :
    Draws
    → DeliveryAttempt
    → (parts : String × String) → (github_delivery_id : ℤ) → ManagementAuthorization
    → Creation
creation draws attempt parts github_delivery_id authorization = record {
  action_id = draws.action_id;
  attempt = attempt;
  repository = parts.0 <> ("/" <> parts.1);
  github_delivery_id = github_delivery_id;
  requested_at = draws.requested_at;
  principal = authorization.principal;
  authorization = some authorization;
}

unfoldable pub accepted_result : RecoveryAction → DeliveryAttempt → ℤ → GitHubRedeliveryResult
accepted_result action attempt github_delivery_id = record {
  action_id = action.action_id;
  attempt = attempt;
  github_delivery_id = github_delivery_id;
  status = "accepted";
}

-- What the caller gets for the answer of GitHub.
abbrev pub reported : Result (Unit {0}) → GitHubRedeliveryResult → Result GitHubRedeliveryResult
reported (ok _) result = ok result
reported (err e) result = err e

-- The world is whatever the network and other tasks are (`E`), and the journal.
module _ (E : Type 0) (journal : RecoveryActionStore) where
  abbrev pub World : Type 0
  World = E × journal.State

  unfoldable pub write_initiated : Creation → Exec World RecoveryAction
  unfolding journal_error
  write_initiated c (e, j) =
      let (r, j') = journal.create_initiated_github_redelivery c j in (journal_error r, (e, j'))

  -- `_finalize_action`
  unfoldable pub finalize_action : Finalization → Exec World (Unit {0})
  unfolding journal_error
  finalize_action f (e, j) =
      let (r, j') = journal.finalize f j in
      (elim (journal_error r) [ ok _ ↦ ok tt | err x ↦ err x ], (e, j'))

  -- The answer to the request, as it is reported once the journal has it.
  unfoldable pub settle_as :
      Option Finalization
      → Result (Unit {0})
      → GitHubRedeliveryResult
      → Exec World GitHubRedeliveryResult
  settle_as none answer result = pure (reported answer result)
  settle_as (some f) answer result = do written ← finalize_action f; pure (reported answer result)

  abbrev pub settle :
      Draws → Result (Unit {0}) → GitHubRedeliveryResult → Exec World GitHubRedeliveryResult
  settle draws answer result = settle_as (settlement draws answer) answer result

  module _ (decode : String → Uuid → Result String) (encode : Uuid → Option String → String)
      (list_deliveries : ListDeliveries World) (request : RequestRedelivery World) (draws : Draws)
      (attempt : DeliveryAttempt) (github_delivery_id : ℤ)
      (authorization : ManagementAuthorization) where
    -- The `try` around the request: the answer is a value, the world goes on.
    abbrev attempt_request : String × String → Exec World (Result (Unit {0}))
    attempt_request parts w =
        let (answer, w') =
          request (parts.0) (parts.1) attempt.delivery_identity.hook_id github_delivery_id w in
        (ok answer, w')

    -- From the journal entry on.
    unfoldable pub submit : String × String → Exec World GitHubRedeliveryResult
    submit parts = do
      action ← write_initiated (creation draws attempt parts github_delivery_id authorization)
      answer ← attempt_request parts
      settle draws answer (accepted_result action attempt github_delivery_id)

    unfoldable pub submit_if_verified :
        String × String → Option GitHubDeliverySummary → Exec World GitHubRedeliveryResult
    submit_if_verified parts none = raise unverified_redelivery_target
    submit_if_verified parts (some verified_match) = submit parts

    abbrev pub verify_and_submit :
        String × String → GitHubReconciliationResult → Exec World GitHubRedeliveryResult
    verify_and_submit parts result =
        submit_if_verified parts
          (find (λ d. eq_ℤ d.github_delivery_id github_delivery_id) result.matches)

    unfoldable pub request_redelivery :
        (enabled has_client reconciliation_enabled has_deliveries_client : Bool)
        → (max_pages : ℕ) → Exec World GitHubRedeliveryResult
    request_redelivery enabled has_client reconciliation_enabled has_deliveries_client max_pages =
        if not enabled || not has_client
        then raise redelivery_disabled
        else if not (str_eq authorization.capability recovery_execute)
        then raise redelivery_disabled
        else (do
          parts ← pure (repository_coordinates attempt)
          result ←
              reconcile decode encode list_deliveries reconciliation_enabled has_deliveries_client
                max_pages attempt none
          verify_and_submit parts result)
