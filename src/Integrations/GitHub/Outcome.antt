-- ===== src/Integrations/GitHub/Outcome.antt =====
-- From the reply of GitHub to the state in which the journal records a redelivery request.
use github_webhook_monitor.Prelude.{
  ℕ, String, Option, none, some, ◌==◌, leb, ◌||◌, if◌then◌else◌, ◌≡◌, refl, subst, sym, arith,
  Bool-cases, inl, inr,
}
use github_webhook_monitor.Errors.{Result, ok, err, upstream_unavailable, upstream_protocol}
use github_webhook_monitor.Domain.RecoveryActions.{
  state_accepted, state_failed, state_outcome_unknown,
}
use github_webhook_monitor.Storage.RecoveryActions.{Finalization}
use github_webhook_monitor.Services.Redelivery.{Draws, settlement}
use github_webhook_monitor.Integrations.GitHub.{
  Reply, response, fault, connect_error, connect_timeout, timeout, network_error, request_error,
}
use github_webhook_monitor.Integrations.GitHub.Client.{
  is_rate_limited, redelivery_result, redelivery_protocol_failure_category,
}

-- A request that was not sent has failed; one that was sent and not answered has an unknown
-- outcome; one that was answered is accepted with status 202, and has failed with any other.
abbrev pub state_of : Reply → String
state_of (fault connect_error) = state_failed
state_of (fault connect_timeout) = state_failed
state_of (fault timeout) = state_outcome_unknown
state_of (fault network_error) = state_outcome_unknown
state_of (fault request_error) = state_outcome_unknown
state_of (response r) = if r.status_code == 202 then state_accepted else state_failed

abbrev pub answered_status : Reply → Option ℕ
answered_status (fault _) = none
answered_status (response r) = some r.status_code

abbrev pub Records : Draws → Reply → Type 0
Records draws reply =
    (f : Finalization) × (settlement draws (redelivery_result reply) ≡ some f)
    × (f.state ≡ state_of reply)
    × (f.upstream_status_code ≡ answered_status reply)

abbrev RecordsAs : Draws → Reply → Result (Unit {0}) → Type 0
RecordsAs draws reply answer =
    (f : Finalization) × (settlement draws answer ≡ some f)
    × (f.state ≡ state_of reply)
    × (f.upstream_status_code ≡ answered_status reply)

recorded :
    (draws : Draws) (reply : Reply) (answer : Result (Unit {0}))
    → redelivery_result reply ≡ answer
    → RecordsAs draws reply answer
    → Records draws reply
recorded draws reply answer e = subst (RecordsAs draws reply) (sym e)

-- Whatever GitHub replies, the client returns or raises what the service has a final state for:
-- the state is the one of the reply, with the reply's status code.
pub redelivery_result-Records : (draws : Draws) (reply : Reply) → Records draws reply
unfolding settlement redelivery_result
redelivery_result-Records draws (fault connect_error) = (_, refl, refl, refl)
redelivery_result-Records draws (fault connect_timeout) = (_, refl, refl, refl)
redelivery_result-Records draws (fault timeout) = (_, refl, refl, refl)
redelivery_result-Records draws (fault network_error) = (_, refl, refl, refl)
redelivery_result-Records draws (fault request_error) = (_, refl, refl, refl)
redelivery_result-Records draws (response r) = elim (Bool-cases (r.status_code == 202)) [
  | inl a ↦
      recorded draws (response r) (ok tt) (ground (arith, a))
        (_, refl, rw a refl, ground (arith, a))
  | inr n ↦ elim (Bool-cases (r.status_code == 429 || is_rate_limited r)) [
    | inl t ↦
        recorded draws (response r)
          (err (upstream_unavailable (some r.status_code) (some "upstream_throttled")))
          (ground (arith, n, t)) (_, refl, rw n refl, refl)
    | inr u ↦ elim (Bool-cases (leb 500 r.status_code)) [
      | inl s ↦
          recorded draws (response r)
            (err (upstream_unavailable (some r.status_code) (some "upstream_unavailable")))
            (ground (arith, n, u, s)) (_, refl, rw n refl, refl)
      | inr c ↦
          recorded draws (response r)
            (err (
              upstream_protocol (some r.status_code)
                (some (redelivery_protocol_failure_category r.status_code))))
            (ground (arith, n, u, c)) (_, refl, rw n refl, refl)
    ]
  ]
]
