-- ===== src/Security/Oidc/Authenticator.antt =====
-- The methods of `OidcJwtManagementAuthenticator` (app/security.py) that change its cache. The world
-- is whatever the network and other tasks are (`E`), and the cache.
use github_webhook_monitor.Prelude.{
  ℕ, ◌+◌, String, Bool, true, false, Option, none, some, ltb, ◌<>◌, rstrip_slash, if◌then◌else◌,
}
use github_webhook_monitor.Errors.{ok, invalid_management_token, or_raise}
use github_webhook_monitor.Domain.Json.{Fields}
use github_webhook_monitor.Domain.Management.{ManagementPrincipal}
use github_webhook_monitor.Integrations.GitHub.{Reply}
use github_webhook_monitor.Security.Tokens.{Credentials}
use github_webhook_monitor.Services.Exec.{Exec, return, pure, ◌>>=◌}
use github_webhook_monitor.Security.Oidc.{
  OidcJwtConfig, OidcMetadata, Cache, Jwt, provider_payload, metadata_of, bearer_token,
  token_header, verified_principal,
}
use github_webhook_monitor.Security.Oidc.Keys.{key_in}

-- What `__init__` sets.
abbrev pub new_cache : Cache
new_cache = record { metadata = none; metadata_expires_at = 0; jwks = none; jwks_expires_at = 0 }

-- The metadata, if it is there and has not expired.
unfoldable pub cached_metadata : ℕ → Cache → Option OidcMetadata
cached_metadata now cache = if ltb now cache.metadata_expires_at then cache.metadata else none

-- The keys, if they are there, have not expired and need no refresh.
unfoldable pub cached_jwks : ℕ → (refresh : Bool) → Cache → Option Fields
cached_jwks now true cache = none
cached_jwks now false cache = if ltb now cache.jwks_expires_at then cache.jwks else none

module _ {E : Type 0} (http_get : String → Exec (E × Cache) Reply) (monotonic : E × Cache → ℕ)
    (urljoin : String → String → String) (jwt : Jwt) (config : OidcJwtConfig) (cache_ttl : ℕ) where
  abbrev pub save_metadata : ℕ → OidcMetadata → Exec (E × Cache) OidcMetadata
  save_metadata now metadata (env, cache) = (
    ok metadata,
    (env, record cache { metadata = some metadata; metadata_expires_at = now + cache_ttl }),
  )

  abbrev pub save_jwks : ℕ → Fields → Exec (E × Cache) Fields
  save_jwks now document (env, cache) =
      (ok document, (env, record cache { jwks = some document; jwks_expires_at = now + cache_ttl }))

  unfoldable pub fetch_metadata : ℕ → Exec (E × Cache) OidcMetadata
  fetch_metadata now = do
    reply ←
        http_get (urljoin (rstrip_slash config.issuer <> "/") ".well-known/openid-configuration")
    payload ← pure (provider_payload reply)
    metadata ← pure (metadata_of config payload)
    save_metadata now metadata

  abbrev pub metadata_or : ℕ → Option OidcMetadata → Exec (E × Cache) OidcMetadata
  metadata_or now (some metadata) = return metadata
  metadata_or now none = fetch_metadata now

  -- `_metadata_document`
  unfoldable pub metadata_document : Exec (E × Cache) OidcMetadata
  metadata_document w = metadata_or (monotonic w) (cached_metadata (monotonic w) w.1) w

  unfoldable pub fetch_jwks : ℕ → Exec (E × Cache) Fields
  fetch_jwks now = do
    metadata ← metadata_document
    reply ← http_get metadata.jwks_uri
    payload ← pure (provider_payload reply)
    save_jwks now payload

  abbrev pub jwks_or : ℕ → Option Fields → Exec (E × Cache) Fields
  jwks_or now (some document) = return document
  jwks_or now none = fetch_jwks now

  -- `_jwks_document`
  unfoldable pub jwks_document : (refresh : Bool) → Exec (E × Cache) Fields
  jwks_document refresh w = jwks_or (monotonic w) (cached_jwks (monotonic w) refresh w.1) w

  -- `_signing_key_for`
  unfoldable pub signing_key_for :
      Option String → String → (refresh : Bool) → Exec (E × Cache) (Option jwt.SigningKey)
  signing_key_for kid alg refresh = do
    document ← jwks_document refresh
    pure (key_in jwt kid alg document)

  -- The second lookup of `authenticate`, with the keys fetched again.
  unfoldable pub or_refreshed :
      Option String → String → Option jwt.SigningKey → Exec (E × Cache) (Option jwt.SigningKey)
  or_refreshed kid alg (some key) = return (some key)
  or_refreshed none alg none = return none
  or_refreshed (some kid) alg none = signing_key_for (some kid) alg true

  unfoldable pub verified_by :
      String → String × Option String → Exec (E × Cache) ManagementPrincipal
  verified_by token (alg, kid) = do
    first ← signing_key_for kid alg false
    found ← or_refreshed kid alg first
    key ← pure (or_raise found invalid_management_token)
    pure (verified_principal jwt config token key)

  unfoldable pub authenticate : Option Credentials → Exec (E × Cache) ManagementPrincipal
  authenticate credentials = do
    token ← pure (bearer_token credentials)
    header ← pure (token_header jwt config token)
    verified_by token header
