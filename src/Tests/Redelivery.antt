-- ===== src/Tests/Redelivery.antt =====
-- The redelivery theorems at concrete inputs.
use github_webhook_monitor.Prelude.{pos, true, none, some, [], ◌≡◌, refl}
use github_webhook_monitor.Errors.{Result, ok, err, recovery_action_not_found}
use github_webhook_monitor.Domain.RecoveryActions.{state_accepted}
use github_webhook_monitor.Integrations.GitHub.{Reply, response}
use github_webhook_monitor.Integrations.GitHub.Outcome.{Records, redelivery_result-Records}
use github_webhook_monitor.Storage.RecoveryActions.{
  Finalization, InMemoryRecoveryActionStore, memory_recovery_action_store, initiated_action,
  finalized, create_initiated_github_redelivery, get,
}
use github_webhook_monitor.Services.Redelivery.{
  Draws, GitHubRedeliveryResult, RequestRedelivery, creation, accepted_result, settlement, submit,
  request_redelivery,
}
use github_webhook_monitor.Services.Redelivery.Settled.{submit-settled, submit-evicted}
use github_webhook_monitor.Services.Redelivery.Verified.{Ran, request_redelivery-Ran}
use github_webhook_monitor.Tests.Data.{attempt, granted, time}
use github_webhook_monitor.Tests.Reconciliation.{list_two, decode_plain, encode_plain}

abbrev draws : Draws
draws = record { action_id = 9; requested_at = time 11; completed_at = time 12 }

abbrev journal : InMemoryRecoveryActionStore
journal = record { actions = record { maxlen = some 1; items = [] } }

-- GitHub accepts the request.
abbrev accept : RequestRedelivery (Unit {0} × InMemoryRecoveryActionStore)
accept o r hook_id delivery_id w = (ok tt, w)

-- Meanwhile another task fills the journal with its own action.
abbrev other_draws : Draws
other_draws = record { action_id = 10; requested_at = time 11; completed_at = time 12 }

abbrev accept_and_evict : RequestRedelivery (Unit {0} × InMemoryRecoveryActionStore)
accept_and_evict o r hook_id delivery_id (e, j) = (
  ok tt,
  (
    e,
    (create_initiated_github_redelivery
        (creation other_draws (attempt 1 10) (o, r) delivery_id granted) j).1,
  ),
)

abbrev accepted : Finalization
accepted = record {
  action_id = 9;
  state = state_accepted;
  completed_at = time 12;
  upstream_status_code = some 202;
  failure_category = none;
}

abbrev submitted :
    RequestRedelivery (Unit {0} × InMemoryRecoveryActionStore)
    → Result GitHubRedeliveryResult × (Unit {0} × InMemoryRecoveryActionStore)
submitted request =
    submit (Unit {0}) memory_recovery_action_store decode_plain encode_plain list_two request draws
      (attempt 1 10) (pos 42) granted ("octo", "hello") (tt, journal)

submit-settled_example :
    ((submitted accept).0
      ≡ ok (
          accepted_result
            (initiated_action (creation draws (attempt 1 10) ("octo", "hello") (pos 42) granted))
            (attempt 1 10)
            (pos 42)))
    × (get 9 (submitted accept).1.1
        ≡ some (
            finalized accepted (
              initiated_action (creation draws (attempt 1 10) ("octo", "hello") (pos 42) granted))))
unfolding settlement get create_initiated_github_redelivery initiated_action creation
submit-settled_example =
    submit-settled (Unit {0}) decode_plain encode_plain list_two accept draws (attempt 1 10)
      (pos 42) granted ("octo", "hello") tt tt journal _ (ok tt) accepted refl refl refl

submit-evicted_example : (submitted accept_and_evict).0 ≡ err recovery_action_not_found
unfolding settlement get create_initiated_github_redelivery initiated_action creation
submit-evicted_example =
    submit-evicted (Unit {0}) decode_plain encode_plain list_two accept_and_evict draws
      (attempt 1 10) (pos 42) granted ("octo", "hello") tt tt journal _ (ok tt) accepted refl refl
      refl

request_redelivery-Ran_example :
    Ran
      (Unit {0})
      memory_recovery_action_store
      decode_plain
      encode_plain
      list_two
      accept
      draws
      (attempt 1 10)
      (pos 42)
      granted
      true
      true
      5
      (tt, journal)
      true
      true
      (request_redelivery
        (Unit {0})
        memory_recovery_action_store
        decode_plain
        encode_plain
        list_two
        accept
        draws
        (attempt 1 10)
        (pos 42)
        granted
        true
        true
        true
        true
        5
        (tt, journal))
request_redelivery-Ran_example =
    request_redelivery-Ran (Unit {0}) memory_recovery_action_store decode_plain encode_plain
      list_two accept draws (attempt 1 10) (pos 42) granted true true 5 (tt, journal) true true

abbrev throttled : Reply
throttled = response (record { status_code = 429; header = λ name. none; json = none })

redelivery_result-Records_example : Records draws throttled
redelivery_result-Records_example = redelivery_result-Records draws throttled
