-- ===== src/Domain/Deliveries.antt =====
-- app/domain/deliveries.py
use github_webhook_monitor.Prelude.{
  ℕ, ℤ, pos, String, Bool, Option, leb, leb_ℤ, ◌==◌, not, ◌&&◌, ◌||◌, is_blank, all_chars,
  str_length,
}
use github_webhook_monitor.Errors.{Result, ok, value_error, raise_if, ◌>>◌}
use github_webhook_monitor.Domain.Datetime.{Datetime, Uuid, is_naive}
use github_webhook_monitor.Domain.Json.{Json}

pub record GitHubDeliveryIdentity : Type 0 where
  pub delivery_guid : String
  pub hook_id : ℤ

-- The constructor with its `__post_init__`.
unfoldable pub github_delivery_identity : String → ℤ → Result GitHubDeliveryIdentity
github_delivery_identity delivery_guid hook_id = do
  raise_if (is_blank delivery_guid) value_error
  raise_if (leb_ℤ hook_id (pos 0)) value_error
  ok (record { delivery_guid = delivery_guid; hook_id = hook_id })

-- `action`, `repository` and `sender` are annotated `str | None`, but they are what the JSON
-- payload holds, and nothing checks it: the fields are JSON values, `null` for None.
pub record DeliveryAttempt : Type 0 where
  pub attempt_id : Uuid
  pub delivery_identity : GitHubDeliveryIdentity
  pub received_at : Datetime
  pub payload_sha256 : String
  pub event_type : String
  pub action : Json
  pub repository : Json
  pub sender : Json
  pub installation_target_id : Option String
  pub installation_target_type : Option String

-- `SHA256_HEX_PATTERN.fullmatch`
unfoldable pub is_hex_digit : ℕ → Bool
is_hex_digit c = (leb b'0' c && leb c b'9') || (leb b'a' c && leb c b'f')

unfoldable pub is_sha256_hex : String → Bool
unfolding is_hex_digit
is_sha256_hex s = str_length s == 64 && all_chars is_hex_digit s

-- `DeliveryAttempt.__post_init__`: the constructor's fields, or the exception.
unfoldable pub delivery_attempt : DeliveryAttempt → Result DeliveryAttempt
delivery_attempt attempt = do
  raise_if (is_naive attempt.received_at) value_error
  raise_if (not (is_sha256_hex attempt.payload_sha256)) value_error
  ok attempt
