-- ===== src/Security/Tokens.antt =====
-- The shared management token (app/security.py).
use github_webhook_monitor.Prelude.{
  String, ℕ, Bool, true, false, Option, none, some, ◌≡◌, ◌↔◌, refl, ap, ◌||◌, not, bytes_eq,
  encode_utf8, if◌then◌else◌, bytes_eq_iff, encode_utf8-injective, arith, is_empty, [], ◌∷◌,
  str_lower_eq,
}
use github_webhook_monitor.Errors.{Exn, Result, ok, err, http_exception}
use github_webhook_monitor.Domain.Management.{ManagementPrincipal, shared_token_principal}

abbrev pub min_management_api_token_length : ℕ
min_management_api_token_length = 32

-- `HTTPAuthorizationCredentials` as FastAPI's `HTTPBearer` parses them
pub record Credentials : Type 0 where
  pub scheme : String
  pub credentials : String

abbrev pub management_unauthorized : Exn
management_unauthorized = http_exception 401 "Unauthorized" (("WWW-Authenticate", "Bearer") ∷ [])

unfoldable pub verify_management_token : String → String → Bool
verify_management_token provided_token expected_token =
    if is_empty provided_token || is_empty expected_token
    then false
    else bytes_eq (encode_utf8 provided_token) (encode_utf8 expected_token)

-- `credentials.scheme.lower() == "bearer"`
unfoldable pub is_bearer : Credentials → Bool
unfolding str_lower_eq
is_bearer c = str_lower_eq c.scheme "bearer"

unfoldable pub authenticate_shared_management_token :
    Option String → Option Credentials → Result ManagementPrincipal
authenticate_shared_management_token expected_token none = err management_unauthorized
authenticate_shared_management_token none (some c) = err management_unauthorized
authenticate_shared_management_token (some expected) (some c) =
    if not (is_bearer c) || not (verify_management_token c.credentials expected)
    then err management_unauthorized
    else ok shared_token_principal

unfoldable pub require_management_access :
    Bool → Option String → Option Credentials → Result ManagementPrincipal
require_management_access management_api_enabled expected_token credentials =
    if not management_api_enabled
    then err (http_exception 404 "Not found" [])
    else authenticate_shared_management_token expected_token credentials

-- The token is accepted exactly if it is the expected one and is not empty: texts are compared by
-- their UTF-8 bytes, and no two texts have the same.
pub verify_management_token_iff :
    (provided expected : String)
    → (verify_management_token provided expected ≡ true)
      ↔ ((provided ≡ expected) × (is_empty expected ≡ false))
unfolding verify_management_token
verify_management_token_iff provided expected = (
  λ h. ground (
    arith,
    bytes_eq_iff (encode_utf8 provided) (encode_utf8 expected),
    encode_utf8-injective provided expected,
  ),
  λ h. ground (
    arith,
    bytes_eq_iff (encode_utf8 provided) (encode_utf8 expected),
    ap encode_utf8 (h.0),
    ap is_empty (h.0),
  ),
)

-- A request is authenticated as the shared principal exactly if a token is configured and the
-- request carries a bearer token that equals it and is not empty.
pub authenticate_shared_management_token_iff :
    (expected : Option String) (credentials : Option Credentials)
    → (authenticate_shared_management_token expected credentials ≡ ok shared_token_principal) ↔ (
        (c : Credentials) × (token : String) × (credentials ≡ some c)
        × (expected ≡ some token)
        × (is_bearer c ≡ true)
        × (c.credentials ≡ token)
        × (is_empty token ≡ false))
unfolding authenticate_shared_management_token
authenticate_shared_management_token_iff expected none = (λ h. cc, λ h. cc (h.2))
authenticate_shared_management_token_iff none (some c) = (λ h. cc, λ h. cc (h.3))
authenticate_shared_management_token_iff (some token) (some c) = (
  λ h.
      let parts = verify_management_token_iff c.credentials token in
      (c, token, refl, refl, ground arith, ground (arith, parts), ground (arith, parts)),
  λ (d, t, e, f, b, same, n). ground (arith, verify_management_token_iff c.credentials token),
)
