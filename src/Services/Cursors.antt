-- ===== src/Services/Cursors.antt =====
-- The text of the cursors: the codecs of app/services/delivery_queries.py, recovery_actions.py and
-- github_reconciliation.py. `json`, `base64`, `UUID` and the text of datetimes are the standard
-- library's and enter as a record of functions.
pub mod Errors
pub mod RoundTrip
use github_webhook_monitor.Prelude.{
  ℕ, zero, suc, ◌-◌, ◌%◌, ◌*◌, ◌+◌, ℤ, pos, String, Char, code, Bool, true, false, not, ◌&&◌, ◌==◌,
  Option, none, some, ◌<>◌, leb, ltb, is_empty, is_ascii, str_length, if◌then◌else◌,
}
use Prim.Native.Char.{char}
use github_webhook_monitor.Errors.{
  Exn, Result, ok, err, value_error, type_error, key_error, attribute_error, overflow_error,
  unicode_decode_error, invalid_delivery_attempts_cursor, invalid_recovery_actions_cursor,
  invalid_reconciliation_cursor, or_raise, raise_if, ◌>>=◌, ◌>>◌,
}
use github_webhook_monitor.Domain.Datetime.{Datetime, Uuid, is_naive}
use github_webhook_monitor.Domain.Json.{
  Json, null, bool, int, real, str, arr, obj, Fields, end, field, get_item, get, as_dict,
}
use github_webhook_monitor.Domain.Deliveries.{DeliveryAttempt}
use github_webhook_monitor.Domain.RecoveryActions.{RecoveryAction}
use github_webhook_monitor.Services.Webhooks.{Loaded, value, json_decode_error, raised}
use github_webhook_monitor.Storage.Keyset.{Key}

-- `dumped` is `urlsafe_b64encode(json.dumps(payload).encode("utf-8"))`, and `loaded` is
-- `json.loads(urlsafe_b64decode(text))`, where none of the two errors is told from the other:
-- `binascii.Error` and `JSONDecodeError` are ValueErrors. `parse_uuid` is `UUID(text)`, none a
-- ValueError, and so is none of `fromisoformat`. `from_local` is the system's time zone, and
-- `is_float_one` whether the text of a float stands for 1.0.
pub record TextLibrary : Type 0 where
  pub dumped : Fields → String
  pub loaded : String → Loaded
  pub parse_uuid : String → Option Uuid
  pub str_uuid : Uuid → String
  pub fromisoformat : String → Option Datetime
  pub isoformat : Datetime → String
  pub from_local : ℕ → ℕ
  pub is_float_one : String → Bool

-- `n * "="`
unfoldable pub padding : ℕ → String
padding zero = String.[]
padding (suc n) = String.◌∷◌ (char 61 tt) (padding n)

-- `text.rstrip(b"=")`
unfoldable pub rstrip_padding : String → String
rstrip_padding String.[] = String.[]
rstrip_padding (String.◌∷◌ c s) =
    let rest = rstrip_padding s in
    if code c == 61 && is_empty rest then String.[] else String.◌∷◌ c rest

-- `cursor + ("=" * (-len(cursor) % 4))`
unfoldable pub padded : String → String
unfolding padding
padded cursor = cursor <> padding ((4 - str_length cursor % 4) % 4)

-- The instants of year 1 to year 9999 in UTC, counted from the day before.
unfoldable pub is_in_range : ℕ → Bool
is_in_range instant = leb 86400000000 instant && ltb instant (86400000000 * 3652060)

-- `value.astimezone(timezone.utc)`
unfoldable pub astimezone_utc : (ℕ → ℕ) → Datetime → Result Datetime
unfolding is_in_range
astimezone_utc from_local t =
    let instant = if is_naive t then from_local t.instant else t.instant in
    if is_in_range instant
    then ok (record { instant = instant; utcoffset = some (pos 0) })
    else err overflow_error

-- `{"v": 1, key: text, key': value}`, in any order
abbrev pub cursor_fields : String → String → String → Json → Fields
cursor_fields key text key' value' =
    field "v" (int (pos 1)) (field key (str text) (field key' value' end))

-- The `except` clauses of the codecs.
unfoldable pub cursor_error : Exn → Exn → Exn
cursor_error e value_error = e
cursor_error e key_error = e
cursor_error e type_error = e
cursor_error e unicode_decode_error = e
cursor_error e x = x

abbrev pub excepted_as {ℓ} : {A : Type ℓ} → Exn → Result A → Result A
excepted_as e (ok a) = ok a
excepted_as e (err x) = err (cursor_error e x)

abbrev pub loaded_value : Loaded → Result Json
loaded_value (value v) = ok v
loaded_value json_decode_error = err value_error
loaded_value (raised x) = err x

module _ (lib : TextLibrary) where
  -- `value == 1`: so are `true` and `1.0`
  unfoldable pub is_version : Json → Bool
  is_version (int (pos n)) = n == 1
  is_version (bool b) = b
  is_version (real text) = lib.is_float_one text
  is_version _ = false

  -- The statements up to the test of the version.
  unfoldable pub cursor_payload : String → Result Fields
  unfolding padded is_version
  cursor_payload cursor = do
    raise_if (not (is_ascii (padded cursor))) value_error
    loaded ← loaded_value (lib.loaded (padded cursor))
    fields ← or_raise (as_dict loaded) value_error
    raise_if (not (is_version (get "v" fields))) value_error
    ok fields

  -- `UUID(value)`: a value that is no text has no `replace`
  unfoldable pub uuid_of : Json → Result Uuid
  uuid_of (str text) = or_raise (lib.parse_uuid text) value_error
  uuid_of null = err type_error
  uuid_of _ = err attribute_error

  -- `datetime.fromisoformat(value)`
  unfoldable pub datetime_of : Json → Result Datetime
  datetime_of (str text) = or_raise (lib.fromisoformat text) value_error
  datetime_of _ = err type_error

  -- The two fields of a keyset, and the checks of the time.
  unfoldable pub keyset_of : (time_key id_key : String) → Fields → Result Key
  unfolding uuid_of datetime_of astimezone_utc
  keyset_of time_key id_key fields = do
    time ← or_raise (get_item time_key fields) key_error >>= datetime_of
    id ← or_raise (get_item id_key fields) key_error >>= uuid_of
    raise_if (is_naive time) value_error
    utc ← astimezone_utc lib.from_local time
    ok (utc.instant, id)

  unfoldable pub decode_keyset : (refused : Exn) → (time_key id_key : String) → String → Result Key
  unfolding cursor_payload keyset_of cursor_error
  decode_keyset refused time_key id_key cursor =
      excepted_as refused (cursor_payload cursor >>= keyset_of time_key id_key)

  unfoldable pub encode_keyset : (time_key id_key : String) → Datetime → Uuid → Result String
  unfolding rstrip_padding astimezone_utc
  encode_keyset time_key id_key time id = do
    utc ← astimezone_utc lib.from_local time
    ok (
        rstrip_padding
          (lib.dumped (cursor_fields time_key (lib.isoformat utc) id_key (str (lib.str_uuid id)))))

  abbrev pub decode_delivery_attempts_cursor : String → Result Key
  decode_delivery_attempts_cursor =
      decode_keyset invalid_delivery_attempts_cursor "received_at" "attempt_id"

  abbrev pub encode_delivery_attempts_cursor : DeliveryAttempt → Result String
  encode_delivery_attempts_cursor attempt =
      encode_keyset "received_at" "attempt_id" attempt.received_at attempt.attempt_id

  abbrev pub decode_recovery_actions_cursor : String → Result Key
  decode_recovery_actions_cursor =
      decode_keyset invalid_recovery_actions_cursor "requested_at" "action_id"

  abbrev pub encode_recovery_actions_cursor : RecoveryAction → Result String
  encode_recovery_actions_cursor action =
      encode_keyset "requested_at" "action_id" action.requested_at action.action_id

  abbrev upstream_json : Option String → Json
  upstream_json none = null
  upstream_json (some cursor) = str cursor

  unfoldable pub encode_reconciliation_cursor : Uuid → Option String → String
  unfolding rstrip_padding
  encode_reconciliation_cursor attempt_id upstream_cursor = rstrip_padding (
      lib.dumped (
        cursor_fields "attempt_id" (lib.str_uuid attempt_id) "github_cursor"
          (upstream_json upstream_cursor)))

  -- a text that is not empty
  unfoldable pub upstream_of : Json → Result String
  upstream_of (str text) = if is_empty text then err value_error else ok text
  upstream_of _ = err value_error

  unfoldable pub upstream_field : Uuid → Fields → Result String
  unfolding uuid_of upstream_of
  upstream_field attempt_id fields = do
    id ← or_raise (get_item "attempt_id" fields) key_error >>= uuid_of
    upstream ← or_raise (get_item "github_cursor" fields) key_error
    raise_if (not (id == attempt_id)) value_error
    upstream_of upstream

  unfoldable pub decode_reconciliation_cursor : String → Uuid → Result String
  unfolding cursor_payload upstream_field cursor_error
  decode_reconciliation_cursor cursor attempt_id =
      excepted_as invalid_reconciliation_cursor
        (cursor_payload cursor >>= upstream_field attempt_id)
