-- ===== src/Services/Reconciliation/Resume.antt =====
-- Following a reconciliation cursor finds what one longer search would have found: with the codecs
-- of the cursor.
use github_webhook_monitor.Prelude.{ℕ, suc, ◌+◌, ◌^◌, ltb, String, true, Option, some, ◌≡◌}
use github_webhook_monitor.Errors.{ok}
use github_webhook_monitor.Domain.Deliveries.{DeliveryAttempt}
use github_webhook_monitor.Services.Cursors.{
  TextLibrary, encode_reconciliation_cursor, decode_reconciliation_cursor,
}
use github_webhook_monitor.Services.Cursors.RoundTrip.{Documented, reconciliation-decoded}
use github_webhook_monitor.Services.Reconciliation.{
  reconcile, ListDeliveries, GitHubReconciliationResult,
}
use github_webhook_monitor.Services.Reconciliation.Joined.{Joins, resumed}

-- A search that reached its page limit of at least one page, and the search from the cursor that it
-- returned, find together what one search with the sum of the limits finds, and end like it, for an
-- attempt whose id is a number of 128 bits.
pub reconcile-resume :
    {W : Type 0} (lib : TextLibrary) (doc : Documented lib) (list_deliveries : ListDeliveries W)
    (attempt : DeliveryAttempt) (n m : ℕ) (cursor : Option String) (s : String) (w v u : W)
    (r1 r2 : GitHubReconciliationResult)
    → ltb attempt.attempt_id (2 ^ 128) ≡ true
    → reconcile
        (decode_reconciliation_cursor lib)
        (encode_reconciliation_cursor lib)
        list_deliveries
        true
        true
        (suc n)
        attempt
        cursor
        w
      ≡ (ok r1, v)
    → r1.next_cursor ≡ some s
    → reconcile
        (decode_reconciliation_cursor lib)
        (encode_reconciliation_cursor lib)
        list_deliveries
        true
        true
        m
        attempt
        (some s)
        v
      ≡ (ok r2, u)
    → (r : GitHubReconciliationResult) × (reconcile
          (decode_reconciliation_cursor lib)
          (encode_reconciliation_cursor lib)
          list_deliveries
          true
          true
          (suc n + m)
          attempt
          cursor
          w
        ≡ (ok r, u))
      × Joins r1 r2 r
reconcile-resume lib doc list_deliveries attempt n m cursor s w v u r1 r2 small h1 limit h2 =
    resumed (decode_reconciliation_cursor lib) (encode_reconciliation_cursor lib) list_deliveries
      attempt n m cursor s w v u r1 r2 (reconciliation-decoded lib doc attempt.attempt_id small) h1
      limit h2
