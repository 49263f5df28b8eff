-- ===== src/Integrations/GitHub/Requests.antt =====
-- The requests that the two clients of app/integrations/github/client.py send: paths, headers and
-- parameters, and the two methods from the arguments to the result.
use Prim.Native.Char.{char}
use Prim.Native.Nat.{◌/◌}
use Prim.Native.String.{◌++◌}
use github_webhook_monitor.Prelude.{
  ℕ, ℤ, String, Bool, Option, List, [], ◌∷◌, ◌==◌, ◌||◌, ◌&&◌, ◌%◌, leb, code, Char, digit, str_int,
  Bytes, utf8_char, if◌then◌else◌,
}
use github_webhook_monitor.Errors.{Result}
use github_webhook_monitor.Domain.Datetime.{Datetime}
use github_webhook_monitor.Domain.Url.{ParsedUrl}
use github_webhook_monitor.Integrations.GitHub.{GitHubDeliveryPage, Reply}
use github_webhook_monitor.Integrations.GitHub.Client.{redelivery_result}
use github_webhook_monitor.Integrations.GitHub.Parsing.{listing_result}

-- The characters that `urllib.parse.quote` leaves alone: letters, digits and `_.-~`.
unfoldable pub is_unreserved : ℕ → Bool
is_unreserved c =
    (leb 65 c && leb c 90)
    || (leb 97 c && leb c 122)
    || (leb 48 c && leb c 57)
    || (c == 95)
    || (c == 46)
    || (c == 45)
    || (c == 126)

-- A hexadecimal digit as `%02X` writes it.
unfoldable pub hex_digit : ℕ → Char
hex_digit n =
    if n == 10
    then char 65 tt
    else if n == 11
    then char 66 tt
    else if n == 12
    then char 67 tt
    else if n == 13
    then char 68 tt
    else if n == 14
    then char 69 tt
    else if n == 15
    then char 70 tt
    else digit n

-- Each byte as `%XX`, in front of `rest`.
unfoldable pub quote_bytes : Bytes → String → String
quote_bytes [] rest = rest
quote_bytes (b ∷ bs) rest =
    String.◌∷◌ (char 37 tt)
      (String.◌∷◌ (hex_digit (b / 16)) (String.◌∷◌ (hex_digit (b % 16)) (quote_bytes bs rest)))

-- `quote(s, safe='')`
unfoldable pub quote : String → String
quote String.[] = String.[]
quote (String.◌∷◌ c s) =
    let rest = quote s in
    if is_unreserved (code c) then String.◌∷◌ c rest else quote_bytes (utf8_char (code c) []) rest

unfoldable pub repository_deliveries_path : String → String → ℤ → String
repository_deliveries_path owner repository hook_id =
    "/repos/"
    ++ quote owner
    ++ "/"
    ++ quote repository
    ++ "/hooks/"
    ++ str_int hook_id
    ++ "/deliveries"

unfoldable pub repository_redelivery_path : String → String → ℤ → ℤ → String
repository_redelivery_path owner repository hook_id github_delivery_id =
    "/repos/"
    ++ quote owner
    ++ "/"
    ++ quote repository
    ++ "/hooks/"
    ++ str_int hook_id
    ++ "/deliveries/"
    ++ str_int github_delivery_id
    ++ "/attempts"

pub record GitHubHeaders : Type 0 where
  pub accept : String
  pub authorization : String
  pub user_agent : String
  pub x_github_api_version : String

abbrev pub github_user_agent : String
github_user_agent = "github-webhook-monitor"

abbrev pub github_api_version : String
github_api_version = "2026-03-10"

abbrev pub repository_deliveries_per_page : ℕ
repository_deliveries_per_page = 100

unfoldable pub github_headers : String → GitHubHeaders
github_headers token = record {
  accept = "application/vnd.github+json";
  authorization = "Bearer " ++ token;
  user_agent = github_user_agent;
  x_github_api_version = github_api_version;
}

-- The parameters of a listing request; a cursor that is None is left out.
pub record ListingParams : Type 0 where
  pub per_page : ℕ
  pub cursor : Option String

-- `request_repository_webhook_redelivery`, against the `post` of an HTTP client.
unfoldable pub request_repository_webhook_redelivery :
    {W : Type 0}
    → (String → GitHubHeaders → W → Reply × W)
    → (token : String) → String
    → String
    → ℤ
    → ℤ
    → W
    → Result (Unit {0}) × W
request_repository_webhook_redelivery post token owner repository hook_id github_delivery_id w =
    let (reply, w') =
      post (repository_redelivery_path owner repository hook_id github_delivery_id)
        (github_headers token) w in
    (redelivery_result reply, w')

-- `list_repository_webhook_deliveries`, against the `get` of an HTTP client.
module _ (urlparse : String → Result ParsedUrl) (parse_qs : String → String → Option (List String))
    (fromisoformat : String → Option Datetime) where
  unfoldable pub list_repository_webhook_deliveries :
      {W : Type 0}
      → (String → ListingParams → GitHubHeaders → W → Reply × W)
      → (token : String) → String
      → String
      → ℤ
      → Option String
      → W
      → Result GitHubDeliveryPage × W
  list_repository_webhook_deliveries get token owner repository hook_id cursor w =
      let path = repository_deliveries_path owner repository hook_id in
      let params : ListingParams = record {
        per_page = repository_deliveries_per_page;
        cursor = cursor;
      } in
      let (reply, w') = get path params (github_headers token) w in
      (listing_result urlparse parse_qs fromisoformat path reply, w')
