-- ===== src/Integrations/GitHub/Parsing.antt =====
-- Reading a page of delivery summaries (app/integrations/github/client.py). `urlparse`,
-- `parse_qs` and `datetime.fromisoformat` are parameters.
use github_webhook_monitor.Prelude.{
  ℤ, pos, String, Bool, true, false, not, ◌||◌, ◌&&◌, Option, none, some, List, [], ◌∷◌, code, ◌<>◌,
  str_eq, is_empty, strip, split_all, if◌then◌else◌, ◌==◌, any_strip,
}
use github_webhook_monitor.Errors.{
  Result, ok, err, value_error, key_error, upstream_protocol, raise_if, or_raise, ◌>>=◌, ◌>>◌,
}
use github_webhook_monitor.Domain.Datetime.{Datetime, is_naive}
use github_webhook_monitor.Domain.Url.{ParsedUrl}
use github_webhook_monitor.Domain.Json.{
  Json, null, bool, int, real, str, arr, obj, Items, nil, cons, Fields, get_item, get,
}
use github_webhook_monitor.Integrations.GitHub.{GitHubDeliverySummary, GitHubDeliveryPage, Reply}
use github_webhook_monitor.Integrations.GitHub.Client.{listing_refused}

-- `True` and `False` are integers to Python.
unfoldable pub as_int : Json → Result ℤ
as_int (int n) = ok n
as_int (bool true) = ok (pos 1)
as_int (bool false) = ok (pos 0)
as_int _ = err value_error

unfoldable pub as_str : Json → Result String
as_str (str s) = ok s
as_str _ = err value_error

unfoldable pub as_bool : Json → Result Bool
as_bool (bool b) = ok b
as_bool _ = err value_error

unfoldable pub require_int : Fields → String → Result ℤ
require_int value key = or_raise (get_item key value) key_error >>= as_int

unfoldable pub require_str : Fields → String → Result String
require_str value key = or_raise (get_item key value) key_error >>= as_str

unfoldable pub require_bool : Fields → String → Result Bool
require_bool value key = or_raise (get_item key value) key_error >>= as_bool

unfoldable pub optional_int : Json → Result (Option ℤ)
optional_int null = ok none
optional_int value = do n ← as_int value; ok (some n)

unfoldable pub optional_str : Json → Result (Option String)
optional_str null = ok none
optional_str value = do s ← as_str value; ok (some s)

-- `optional_number`, before the conversion to a float
unfoldable pub optional_number : Json → Result (Option Json)
optional_number null = ok none
optional_number (int n) = ok (some (int n))
optional_number (real r) = ok (some (real r))
optional_number (bool b) = ok (some (bool b))
optional_number _ = err value_error

-- `value.replace("Z", "+00:00")`
unfoldable pub replace_z : String → String
replace_z String.[] = ""
replace_z (String.◌∷◌ c s) =
    let rest = replace_z s in if code c == b'Z' then "+00:00" <> rest else String.◌∷◌ c rest

-- `section.endswith(">")`, and `section[:-1]` without it
unfoldable pub without_last : String → Option String
without_last String.[] = none
without_last (String.◌∷◌ c s) = elim (without_last s) [
  | none ↦ if code c == b'>' && is_empty s then some "" else none
  | some rest ↦ some (String.◌∷◌ c rest)
]

-- `section[1:-1]` if the section stands in angle brackets
unfoldable pub in_brackets : String → Option String
in_brackets String.[] = none
in_brackets (String.◌∷◌ c s) = if code c == b'<' then without_last s else none

module _ (urlparse : String → Result ParsedUrl) (parse_qs : String → String → Option (List String))
    (fromisoformat : String → Option Datetime) where
  unfoldable pub parse_datetime : Json → Result Datetime
  unfolding replace_z
  parse_datetime (str value) = do
    parsed ← or_raise (fromisoformat (replace_z value)) value_error
    raise_if (is_naive parsed) value_error
    ok parsed
  parse_datetime _ = err value_error

  unfoldable pub parse_required_datetime : Fields → String → Result Datetime
  parse_required_datetime value key = or_raise (get_item key value) key_error >>= parse_datetime

  unfoldable pub parse_optional_datetime : Json → Result (Option Datetime)
  parse_optional_datetime null = ok none
  parse_optional_datetime value = do t ← parse_datetime value; ok (some t)

  unfoldable pub parse_delivery_summary : Json → Result GitHubDeliverySummary
  parse_delivery_summary (obj value) = do
    github_delivery_id ← require_int value "id"
    delivery_guid ← require_str value "guid"
    delivered_at ← parse_required_datetime value "delivered_at"
    redelivery ← require_bool value "redelivery"
    duration ← optional_number (get "duration" value)
    status ← optional_str (get "status" value)
    status_code ← optional_int (get "status_code" value)
    event ← optional_str (get "event" value)
    action ← optional_str (get "action" value)
    installation_id ← optional_int (get "installation_id" value)
    repository_id ← optional_int (get "repository_id" value)
    throttled_at ← parse_optional_datetime (get "throttled_at" value)
    ok (record {
      github_delivery_id = github_delivery_id;
      delivery_guid = delivery_guid;
      delivered_at = delivered_at;
      redelivery = redelivery;
      duration = duration;
      status = status;
      status_code = status_code;
      event = event;
      action = action;
      installation_id = installation_id;
      repository_id = repository_id;
      throttled_at = throttled_at;
    })
  parse_delivery_summary _ = err value_error

  unfoldable pub parse_all : Items → Result (List GitHubDeliverySummary)
  parse_all nil = ok []
  parse_all (cons item items) = do
    summary ← parse_delivery_summary item
    rest ← parse_all items
    ok (summary ∷ rest)

  -- The cursor of a URL in the `Link` header.
  unfoldable pub cursor_of_url : ParsedUrl → String → Option String
  cursor_of_url parsed expected_path =
      if not (str_eq parsed.scheme "https")
        || not (str_eq parsed.netloc "api.github.com")
        || not (str_eq parsed.path expected_path)
      then none
      else elim (parse_qs parsed.query "cursor") [
        | none ↦ none
        | some [] ↦ none
        | some (value ∷ values) ↦ some value
      ]

  -- One part of the header: none to go on, or what is returned or raised.
  unfoldable pub cursor_of_part : List String → String → Option (Result (Option String))
  cursor_of_part [] expected_path = none
  cursor_of_part (section ∷ parameter_parts) expected_path =
      if not (any_strip "rel=\"next\"" parameter_parts)
      then none
      else elim (in_brackets (strip section)) [
        | none ↦ none
        | some url ↦ some (do parsed ← urlparse url; ok (cursor_of_url parsed expected_path))
      ]

  unfoldable pub cursor_of_parts : List String → String → Result (Option String)
  cursor_of_parts [] expected_path = ok none
  cursor_of_parts (link_part ∷ link_parts) expected_path =
      elim (cursor_of_part (split_all b';' link_part) expected_path) [
        | none ↦ cursor_of_parts link_parts expected_path
        | some cursor ↦ cursor
      ]

  unfoldable pub extract_next_cursor : Option String → String → Result (Option String)
  extract_next_cursor none expected_path = ok none
  extract_next_cursor (some link_header) expected_path =
      if is_empty link_header
      then ok none
      else cursor_of_parts (split_all b',' link_header) expected_path

  -- The deliveries of a payload; every error of reading them is caught.
  unfoldable pub payload_deliveries : Option Json → Result (List GitHubDeliverySummary)
  payload_deliveries (some (arr items)) = elim (parse_all items) [
    | ok deliveries ↦ ok deliveries
    | err e ↦ err (upstream_protocol none none)
  ]
  payload_deliveries _ = err (upstream_protocol none none)

  -- `list_repository_webhook_deliveries` behind the GET.
  unfoldable pub listing_result : (expected_path : String) → Reply → Result GitHubDeliveryPage
  listing_result expected_path reply = do
    r ← listing_refused reply
    deliveries ← payload_deliveries r.json
    next_cursor ← extract_next_cursor (r.header "link") expected_path
    ok (record { deliveries = deliveries; next_cursor = next_cursor })
