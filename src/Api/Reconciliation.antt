-- ===== src/Api/Reconciliation.antt =====
-- The reconciliation endpoint of app/api/v1/delivery_attempts.py.
use github_webhook_monitor.Prelude.{Bool, not, String, Option, none, some, [], if◌then◌else◌}
use github_webhook_monitor.Errors.{
  Exn, Result, ok, err, http_exception, reconciliation_disabled, invalid_reconciliation_cursor,
  unsupported_reconciliation_target, upstream_unavailable, upstream_protocol,
}
use github_webhook_monitor.Domain.Datetime.{Uuid}
use github_webhook_monitor.Domain.Deliveries.{DeliveryAttempt}
use github_webhook_monitor.Services.Exec.{Exec, continue}
use github_webhook_monitor.Services.Reconciliation.{GitHubReconciliationResult}
use github_webhook_monitor.Api.Redelivery.{found_attempt}

-- The `except` clauses around `reconcile`.
unfoldable pub reconciliation_error : Exn → Exn
reconciliation_error reconciliation_disabled = http_exception 404 "Not found" []
reconciliation_error invalid_reconciliation_cursor =
    http_exception 400 "Invalid or expired reconciliation cursor" []
reconciliation_error unsupported_reconciliation_target =
    http_exception 409 "Delivery attempt is not eligible for repository webhook reconciliation" []
reconciliation_error (upstream_unavailable _ _) = http_exception 503 "Service unavailable" []
reconciliation_error (upstream_protocol _ _) = http_exception 502 "Upstream service unavailable" []
reconciliation_error e = e

module _ {W : Type 0} (parse_uuid : String → Option Uuid)
    (get_local_attempt : Uuid → W → Result (Option DeliveryAttempt))
    (reconcile_attempt : DeliveryAttempt → Option String → Exec W GitHubReconciliationResult) where
  abbrev answer : Result GitHubReconciliationResult → Result GitHubReconciliationResult
  answer (ok result) = ok result
  answer (err e) = err (reconciliation_error e)

  -- What the handler answers is the service's result; the JSON answer is left out. `enabled` is
  -- false also where there is no service.
  unfoldable pub reconcile_github_deliveries :
      (enabled : Bool)
      → (attempt_id : String) → (cursor : Option String) → Exec W GitHubReconciliationResult
  reconcile_github_deliveries enabled attempt_id cursor w =
      if not enabled
      then (err (http_exception 404 "Not found" []), w)
      else elim (parse_uuid attempt_id) [
        | none ↦ (err (http_exception 422 "Invalid attempt_id" []), w)
        | some parsed_attempt_id ↦
            continue (found_attempt (get_local_attempt parsed_attempt_id w)) w
              λ attempt v. let (r, v') = reconcile_attempt attempt cursor v in (answer r, v')
      ]
