-- ===== src/Security/Oidc.antt =====
-- The values and tests of `OidcJwtManagementAuthenticator` in app/security.py. The JWT library, `urljoin`, the HTTP client
-- and the monotonic clock are parameters.
pub mod Accepted
pub mod Authentic
pub mod Authenticator
pub mod Keys
pub mod Published
pub mod Raises
pub mod Refusals
use github_webhook_monitor.Prelude.{
  ℕ, ◌+◌, String, Bool, true, false, not, ◌&&◌, ◌||◌, Option, none, some, List, is_blank, leb, ◌==◌,
  str_eq, str_in, startswith, split_words, if◌then◌else◌,
}
use github_webhook_monitor.Errors.{
  Result, ok, err, type_error, invalid_management_token, identity_provider_unavailable, raise_if,
  or_raise, ◌>>=◌, ◌>>◌,
}
use github_webhook_monitor.Domain.Json.{
  Json, null, str, arr, obj, Items, cons, Fields, get, as_text, as_dict,
}
use github_webhook_monitor.Domain.Management.{ManagementPrincipal, authentication_method_oidc_jwt}
use github_webhook_monitor.Integrations.GitHub.{Reply, response, fault}
use github_webhook_monitor.Security.Algorithms.{is_rejected_algorithm}
use github_webhook_monitor.Security.Tokens.{Credentials, is_bearer}

pub record OidcJwtConfig : Type 0 where
  pub issuer : String
  pub audience : String
  pub allowed_algorithms : List String

pub record OidcMetadata : Type 0 where
  pub issuer : String
  pub jwks_uri : String

-- The fields that the authenticator changes. Times are nanoseconds of the monotonic clock.
pub record Cache : Type 0 where
  pub metadata : Option OidcMetadata
  pub metadata_expires_at : ℕ
  pub jwks : Option Fields
  pub jwks_expires_at : ℕ

-- What the authenticator calls of PyJWT: none where it raises a PyJWTError. `decode` verifies the
-- signature, the times, the issuer, the audience and that the required claims are there.
pub record Jwt : Type 1 where
  pub SigningKey : Type 0
  pub get_unverified_header : String → Option Fields
  pub key_from_dict : Fields → (algorithm : String) → Option SigningKey
  pub decode :
      (token : String)
      → SigningKey
      → (algorithms : List String) → (audience issuer : String) → Option Fields

-- `value == text`
abbrev pub is_text : String → Json → Bool
is_text text (str s) = str_eq s text
is_text text _ = false

-- `value is None`
abbrev pub is_null : Json → Bool
is_null null = true
is_null _ = false

-- `typ not in OIDC_ACCESS_TOKEN_TYPES`, where a list or dict cannot be hashed
unfoldable pub check_type : Json → Result (Unit {0})
check_type (str typ) =
    raise_if (not (str_eq typ "at+jwt" || str_eq typ "application/at+jwt")) invalid_management_token
check_type (arr _) = err type_error
check_type (obj _) = err type_error
check_type _ = err invalid_management_token

unfoldable pub check_algorithm : List String → Json → Result String
check_algorithm allowed value = do
  alg ← or_raise (as_text value) invalid_management_token
  raise_if (not (str_in alg allowed)) invalid_management_token
  raise_if (is_rejected_algorithm alg) invalid_management_token
  ok alg

unfoldable pub check_key_id : Json → Result (Option String)
check_key_id null = ok none
check_key_id (str kid) = ok (some kid)
check_key_id _ = err invalid_management_token

-- The algorithm and the key id of a token's header.
unfoldable pub checked_header : List String → Fields → Result (String × Option String)
checked_header allowed header = do
  check_type (get "typ" header)
  alg ← check_algorithm allowed (get "alg" header)
  kid ← check_key_id (get "kid" header)
  ok (alg, kid)

-- `not isinstance(value, str) or not value.strip()` raises
unfoldable pub required_claim : Json → Result String
required_claim value = do
  text ← or_raise (as_text value) invalid_management_token
  raise_if (is_blank text) invalid_management_token
  ok text

unfoldable pub parse_scope_claim : Json → Result (List String)
unfolding split_words
parse_scope_claim value = do
  text ← or_raise (as_text value) invalid_management_token
  ok (split_words text)

unfoldable pub claims_principal : OidcJwtConfig → Fields → Result ManagementPrincipal
claims_principal config claims = do
  subject ← required_claim (get "sub" claims)
  client_id ← required_claim (get "client_id" claims)
  jwt_id ← required_claim (get "jti" claims)
  scopes ← parse_scope_claim (get "scope" claims)
  ok (record {
    authentication_method = authentication_method_oidc_jwt;
    issuer = some config.issuer;
    subject = some subject;
    client_id = some client_id;
    scopes = scopes;
  })

-- `kid is not None and jwk.get("kid") != kid`
abbrev pub is_other_key : Option String → Fields → Bool
is_other_key none jwk = false
is_other_key (some kid) jwk = not (is_text kid (get "kid" jwk))

-- `jwk_alg is not None and jwk_alg != alg`
abbrev pub is_other_algorithm : String → Fields → Bool
is_other_algorithm alg jwk = not (is_null (get "alg" jwk)) && not (is_text alg (get "alg" jwk))

-- `keys` of a JWKS document, if it is a list that is not empty
unfoldable pub jwks_keys : Json → Result Items
jwks_keys (arr (cons key keys)) = ok (cons key keys)
jwks_keys _ = err identity_provider_unavailable

-- `kid is None and len(keys) != 1`
abbrev pub is_ambiguous : Option String → Items → Bool
is_ambiguous none (cons key (cons key' keys)) = true
is_ambiguous kid keys = false

-- The tests of a reply of the identity provider that is not an exception.
unfoldable pub provider_payload : Reply → Result Fields
provider_payload (fault f) = err identity_provider_unavailable
provider_payload (response r) = do
  raise_if (leb 500 r.status_code || r.status_code == 429) identity_provider_unavailable
  raise_if (not (r.status_code == 200)) invalid_management_token
  json ← or_raise r.json identity_provider_unavailable
  or_raise (as_dict json) identity_provider_unavailable

-- `not isinstance(jwks_uri, str) or not jwks_uri.startswith("https://")` raises
unfoldable pub https_uri : Json → Result String
https_uri value = do
  uri ← or_raise (as_text value) identity_provider_unavailable
  raise_if (not (startswith uri "https://")) identity_provider_unavailable
  ok uri

unfoldable pub metadata_of : OidcJwtConfig → Fields → Result OidcMetadata
metadata_of config payload = do
  raise_if (not (is_text config.issuer (get "issuer" payload))) identity_provider_unavailable
  jwks_uri ← https_uri (get "jwks_uri" payload)
  ok (record { issuer = config.issuer; jwks_uri = jwks_uri })

unfoldable pub bearer_token : Option Credentials → Result String
bearer_token credentials = do
  c ← or_raise credentials invalid_management_token
  raise_if (not (is_bearer c)) invalid_management_token
  ok c.credentials

-- The algorithm and the key id of a token whose header is accepted.
unfoldable pub token_header : Jwt → OidcJwtConfig → String → Result (String × Option String)
token_header jwt config token = do
  header ← or_raise (jwt.get_unverified_header token) invalid_management_token
  checked_header config.allowed_algorithms header

unfoldable pub verified_principal :
    (jwt : Jwt) → OidcJwtConfig → String → jwt.SigningKey → Result ManagementPrincipal
verified_principal jwt config token key = do
  claims ←
      or_raise (jwt.decode token key config.allowed_algorithms config.audience config.issuer)
        invalid_management_token
  claims_principal config claims
