-- ===== src/Api/Redelivery.antt =====
-- The redelivery endpoint of app/api/v1/delivery_attempts.py.
use github_webhook_monitor.Prelude.{
  Bool, not, ℤ, pos, String, Option, none, some, [], leb_ℤ, parse_int, if◌then◌else◌,
}
use github_webhook_monitor.Errors.{
  Exn, Result, ok, err, http_exception, delivery_store_error, redelivery_disabled,
  unverified_redelivery_target, redelivery_journal_unavailable, unsupported_reconciliation_target,
  redelivery_outcome_unknown, upstream_unavailable, upstream_protocol,
}
use github_webhook_monitor.Domain.Datetime.{Uuid}
use github_webhook_monitor.Domain.Deliveries.{DeliveryAttempt}
use github_webhook_monitor.Services.Exec.{Exec, continue}
use github_webhook_monitor.Services.Redelivery.{GitHubRedeliveryResult}

-- The checks of the path parameter `github_delivery_id`.
unfoldable pub checked_delivery_id : String → Result ℤ
checked_delivery_id github_delivery_id = elim (parse_int github_delivery_id) [
  | none ↦ err (http_exception 422 "Invalid github_delivery_id" [])
  | some n ↦
      if leb_ℤ n (pos 0) then err (http_exception 422 "Invalid github_delivery_id" []) else ok n
]

-- The lookup of the local attempt, with its two answers.
unfoldable pub found_attempt : Result (Option DeliveryAttempt) → Result DeliveryAttempt
found_attempt (ok (some attempt)) = ok attempt
found_attempt (ok none) = err (http_exception 404 "Delivery attempt not found" [])
found_attempt (err delivery_store_error) = err (http_exception 503 "Service unavailable" [])
found_attempt (err e) = err e

-- The `except` clauses around `request_redelivery`.
unfoldable pub redelivery_error : Exn → Exn
redelivery_error redelivery_disabled = http_exception 404 "Not found" []
redelivery_error redelivery_journal_unavailable = http_exception 503 "Service unavailable" []
redelivery_error unsupported_reconciliation_target =
    http_exception 409 "Delivery attempt is not eligible for repository webhook redelivery" []
redelivery_error unverified_redelivery_target =
    http_exception 409 "GitHub delivery could not be verified for this local attempt" []
redelivery_error (redelivery_outcome_unknown _ _) =
    http_exception 503
      "GitHub redelivery submission outcome could not be confirmed; reconcile before retrying" []
redelivery_error (upstream_unavailable _ _) = http_exception 503 "Service unavailable" []
redelivery_error (upstream_protocol _ _) = http_exception 502 "Upstream service unavailable" []
redelivery_error e = e

module _ {W : Type 0} (parse_uuid : String → Option Uuid)
    (get_local_attempt : Uuid → W → Result (Option DeliveryAttempt))
    (request_redelivery : DeliveryAttempt → ℤ → Exec W GitHubRedeliveryResult) where
  abbrev answer : Result GitHubRedeliveryResult → Result GitHubRedeliveryResult
  answer (ok result) = ok result
  answer (err e) = err (redelivery_error e)

  -- What the handler answers is the service's result; the JSON answer is left out. `enabled` is
  -- false also where there is no service.
  unfoldable pub request_github_redelivery :
      (enabled : Bool) → (attempt_id github_delivery_id : String) → Exec W GitHubRedeliveryResult
  request_github_redelivery enabled attempt_id github_delivery_id w =
      if not enabled
      then (err (http_exception 404 "Not found" []), w)
      else elim (parse_uuid attempt_id) [
        | none ↦ (err (http_exception 422 "Invalid attempt_id" []), w)
        | some parsed_attempt_id ↦
            continue (checked_delivery_id github_delivery_id) w λ parsed_id w'.
              continue (found_attempt (get_local_attempt parsed_attempt_id w')) w'
                λ attempt v. let (r, v') = request_redelivery attempt parsed_id v in (answer r, v')
      ]
