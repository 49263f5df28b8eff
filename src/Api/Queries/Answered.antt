-- ===== src/Api/Queries/Answered.antt =====
-- The answers of the query endpoints.
use github_webhook_monitor.Prelude.{String, ◌≡◌, Option, some, [], All}
use github_webhook_monitor.Errors.{
  Exn, Result, ok, err, http_exception, invalid_delivery_attempts_cursor,
  invalid_delivery_attempts_limit, overflow_error,
}
use github_webhook_monitor.Domain.Deliveries.{DeliveryAttempt}
use github_webhook_monitor.Storage.Keyset.{Key}
use github_webhook_monitor.Storage.Deliveries.{InMemoryDeliveryStore, memory_delivery_store}
use github_webhook_monitor.Services.Queries.{DeliveryAttemptsPage, parse_delivery_attempts_limit}
use github_webhook_monitor.Services.Cursors.{
  TextLibrary, decode_delivery_attempts_cursor, encode_delivery_attempts_cursor,
}
use github_webhook_monitor.Services.Cursors.Errors.{Escapes}
use github_webhook_monitor.Api.Responses.{DeliveryAttemptResponse, delivery_attempt_to_response}
use github_webhook_monitor.Api.Queries.{attempts_error, attempts_page}

-- The payload's fields are texts or None.
abbrev pub IsTyped : DeliveryAttempt → Type 0
IsTyped attempt =
    (response : DeliveryAttemptResponse) × (delivery_attempt_to_response attempt ≡ ok response)

module _ (lib : TextLibrary) (store : InMemoryDeliveryStore)
    (typed : All IsTyped store.attempts.items) (limit cursor : Option String) where
  abbrev decode : String → Result Key
  decode = decode_delivery_attempts_cursor lib

  abbrev encode : DeliveryAttempt → Result String
  encode = encode_delivery_attempts_cursor lib

  abbrev tried : Result DeliveryAttemptsPage
  tried = attempts_page decode encode memory_delivery_store limit cursor store

  -- The errors of the endpoint, by what raised them.
  pub data Refused : Exn → Type 0 where
    invalid_limit :
        parse_delivery_attempts_limit limit ≡ err invalid_delivery_attempts_limit
        → Refused (http_exception 422 "Invalid limit" [])
    invalid_cursor :
        (c : String)
        → cursor ≡ some c
        → decode_delivery_attempts_cursor lib c ≡ err invalid_delivery_attempts_cursor
        → Refused (http_exception 400 "Invalid or expired cursor" [])
    escaped :
        (c : String) (e : Exn)
        → cursor ≡ some c
        → decode_delivery_attempts_cursor lib c ≡ err e
        → Escapes lib invalid_delivery_attempts_cursor e
        → Refused (attempts_error e)
    no_utc_form :
        (a : DeliveryAttempt)
        → encode_delivery_attempts_cursor lib a ≡ err overflow_error
        → Refused overflow_error
