-- ===== src/Tests/Oidc.antt =====
-- The theorems on access tokens at a concrete identity provider.
use github_webhook_monitor.Prelude.{
  is_space, rstrip, lstrip, strip, is_blank, split_words, str_lower_eq, ℕ, String, Option, none,
  some, [], ◌∷◌, ◌≡◌, refl, ◌∙◌, ap, ◌<>◌, startswith, rstrip_slash, str_eq, if◌then◌else◌,
}
use github_webhook_monitor.Errors.{ok, ok-injective}
use github_webhook_monitor.Domain.Json.{
  str, arr, obj, nil, cons, Fields, end, field, get, get_item, as_text, as_dict,
}
use github_webhook_monitor.Domain.Management.{ManagementPrincipal, authentication_method_oidc_jwt}
use github_webhook_monitor.Integrations.GitHub.{Reply, response}
use github_webhook_monitor.Services.Exec.{Exec}
use github_webhook_monitor.Security.Algorithms.{is_rejected_algorithm, is_asymmetric}
use github_webhook_monitor.Security.Oidc.Keys.{key_in, select_key, key_of}
use github_webhook_monitor.Security.Tokens.{is_bearer, Credentials}
use github_webhook_monitor.Security.Oidc.{
  parse_scope_claim, required_claim, claims_principal, verified_principal, jwks_keys, https_uri,
  metadata_of, check_key_id, check_algorithm, check_type, checked_header, token_header,
  bearer_token, OidcJwtConfig, Cache, Jwt, provider_payload,
}
use github_webhook_monitor.Security.Oidc.Authenticator.{
  or_refreshed, fetch_metadata, cached_metadata, metadata_document, fetch_jwks, cached_jwks,
  jwks_document, signing_key_for, verified_by, authenticate, new_cache,
}
use github_webhook_monitor.Security.Oidc.Published.{Sound}
use github_webhook_monitor.Security.Oidc.Authentic.{
  Authentic, authenticate-Authentic, authenticate-Sound,
}

abbrev config : OidcJwtConfig
config = record { issuer = "https://id"; audience = "monitor"; allowed_algorithms = "RS256" ∷ [] }

abbrev discovery : Fields
discovery = field "issuer" (str "https://id") (field "jwks_uri" (str "https://id/keys") end)

abbrev jwks : Fields
jwks = field "keys" (arr (cons (obj (field "kid" (str "k") (field "kty" (str "RSA") end))) nil)) end

abbrev answer : String → Fields
answer url = if str_eq url "https://id/keys" then jwks else discovery

abbrev reply : String → Reply
reply url =
    response (record { status_code = 200; header = λ name. none; json = some (obj (answer url)) })

abbrev http_get : String → Exec (Unit {0} × Cache) Reply
http_get url w = (ok (reply url), w)

abbrev monotonic : Unit {0} × Cache → ℕ
monotonic w = 1000

abbrev urljoin : String → String → String
urljoin base path = base <> path

abbrev header_of : String → Fields
header_of token =
    if str_eq token "unhashable"
    then field "typ" (arr nil) end
    else field "typ" (str "at+jwt") (field "alg" (str "RS256") (field "kid" (str "k") end))

abbrev claims : Fields
claims =
    field "sub" (str "user")
      (field "client_id" (str "cli") (field "jti" (str "1") (field "scope" (str "read write") end)))

abbrev jwt : Jwt
jwt = record {
  SigningKey = String;
  get_unverified_header = λ token. some (header_of token);
  key_from_dict = λ jwk algorithm. some algorithm;
  decode = λ token key algorithms audience issuer. some claims;
}

abbrev credentials : Option Credentials
credentials = some (record { scheme = "Bearer"; credentials = "token" })

abbrev user : ManagementPrincipal
user = record {
  authentication_method = authentication_method_oidc_jwt;
  issuer = some "https://id";
  subject = some "user";
  client_id = some "cli";
  scopes = "read" ∷ "write" ∷ [];
}

-- The document that the provider answers with.
abbrev Served : String → Fields → Type 0
Served url document = provider_payload (reply url) ≡ ok document

served :
    (url : String) (r : Reply)
    → ok (reply url) ≡ ok r
    → (document : Fields) → provider_payload r ≡ ok document
    → Served url document
served url r e document h = ap provider_payload (ok-injective e) ∙ h

new_cache-Sound : Sound Served urljoin jwt config new_cache
new_cache-Sound = record { metadata = λ m e. absurd (cc); jwks = λ keys e. absurd (cc) }

accepted :
    (authenticate http_get monotonic urljoin jwt config 300 credentials (tt, new_cache)).0 ≡ ok user
unfolding authenticate bearer_token is_bearer str_lower_eq token_header checked_header check_type
    check_algorithm as_text as_dict is_rejected_algorithm is_asymmetric check_key_id verified_by
    signing_key_for jwks_document cached_jwks fetch_jwks metadata_document cached_metadata
    fetch_metadata provider_payload metadata_of https_uri key_in jwks_keys select_key key_of
    or_refreshed verified_principal claims_principal required_claim parse_scope_claim split_words
    is_blank strip lstrip rstrip is_space rstrip_slash startswith get get_item
accepted = refl

authenticate-Authentic_example : Authentic Served urljoin jwt config credentials user
authenticate-Authentic_example =
    authenticate-Authentic Served urljoin jwt config http_get monotonic 300
      (λ url w inv. (inv, served url)) credentials (tt, new_cache) user new_cache-Sound accepted

authenticate-Sound_example :
    Sound Served urljoin jwt config
      (authenticate http_get monotonic urljoin jwt config 300 credentials (tt, new_cache)).1.1
authenticate-Sound_example =
    authenticate-Sound Served urljoin jwt config http_get monotonic 300
      (λ url w inv. (inv, served url)) credentials (tt, new_cache) new_cache-Sound

abbrev oidc_mode : String
oidc_mode = "oidc_jwt"

-- A header whose type is a list.
abbrev unhashable : Option Credentials
unhashable = some (record { scheme = "Bearer"; credentials = "unhashable" })
