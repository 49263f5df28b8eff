-- ===== src/Integrations/GitHub/Client.antt =====
-- The two clients of app/integrations/github/client.py.
use github_webhook_monitor.Prelude.{
  ℕ, String, Bool, true, false, ◌||◌, not, none, some, ◌==◌, leb, str_eq, strip, if◌then◌else◌,
  is_some, or_default,
}
use github_webhook_monitor.Errors.{
  Result, ok, err, upstream_unavailable, upstream_protocol, redelivery_outcome_unknown,
}
use github_webhook_monitor.Integrations.GitHub.{
  Response, Reply, response, fault, connect_error, connect_timeout, timeout, network_error,
  request_error,
}

-- `_is_rate_limited`
unfoldable pub is_rate_limited : Response → Bool
is_rate_limited r =
    if not (r.status_code == 403)
    then false
    else if is_some (r.header "retry-after")
    then true
    else str_eq (strip (or_default (r.header "x-ratelimit-remaining") "")) "0"

-- `_redelivery_protocol_failure_category`
unfoldable pub redelivery_protocol_failure_category : ℕ → String
redelivery_protocol_failure_category status_code =
    if status_code == 401
    then "upstream_auth"
    else if status_code == 403
    then "upstream_permission"
    else "upstream_protocol"

-- The part of `request_repository_webhook_redelivery` behind the POST.
unfoldable pub redelivery_result : Reply → Result (Unit {0})
redelivery_result (fault connect_error) = err (upstream_unavailable none none)
redelivery_result (fault connect_timeout) = err (upstream_unavailable none none)
redelivery_result (fault timeout) = err (redelivery_outcome_unknown none none)
redelivery_result (fault network_error) = err (redelivery_outcome_unknown none none)
redelivery_result (fault request_error) = err (redelivery_outcome_unknown none none)
redelivery_result (response r) =
    if r.status_code == 202
    then ok tt
    else if r.status_code == 429 || is_rate_limited r
    then err (upstream_unavailable (some r.status_code) (some "upstream_throttled"))
    else if leb 500 r.status_code
    then err (upstream_unavailable (some r.status_code) (some "upstream_unavailable"))
    else err (
        upstream_protocol (some r.status_code)
          (some (redelivery_protocol_failure_category r.status_code)))

-- The status tests of `list_repository_webhook_deliveries`: none is a response to read.
unfoldable pub listing_refused : Reply → Result Response
listing_refused (fault f) = err (upstream_unavailable none none)
listing_refused (response r) =
    if r.status_code == 429 || leb 500 r.status_code || is_rate_limited r
    then err (upstream_unavailable none none)
    else if not (r.status_code == 200)
    then err (upstream_protocol none none)
    else ok r
