-- ===== src/Security/Oidc/Published.antt =====
-- What the authenticator's cache holds, and what its documents are.
use mathlib.Core.Option.{some-injective}
use github_webhook_monitor.Prelude.{
  subst, ℕ, String, Bool, true, false, Option, none, some, subst, ◌≡◌, refl, arith, startswith,
  rstrip_slash, ◌<>◌,
}
use github_webhook_monitor.Errors.{ok-injective, ok}
use github_webhook_monitor.Domain.Json.{str, Fields, get}
use github_webhook_monitor.Integrations.GitHub.{Reply}
use github_webhook_monitor.Services.Exec.{Exec}
use github_webhook_monitor.Services.Exec.Yields.{Yields, Yields-pure, Yields-bind}
use github_webhook_monitor.Security.Oidc.{
  OidcJwtConfig, OidcMetadata, Cache, Jwt, is_text, provider_payload,
}
use github_webhook_monitor.Security.Oidc.Accepted.{metadata_of-ok}
use github_webhook_monitor.Security.Oidc.Authenticator.{
  cached_metadata, cached_jwks, save_metadata, save_jwks, fetch_metadata, metadata_or,
  metadata_document, fetch_jwks, jwks_or, jwks_document,
}

-- `Served url document`: the document was the answer to a request for the URL.
module _ (Served : String → Fields → Type 0) (urljoin : String → String → String) (jwt : Jwt)
    (config : OidcJwtConfig) where
  abbrev pub metadata_url : String
  metadata_url = urljoin (rstrip_slash config.issuer <> "/") ".well-known/openid-configuration"

  -- Metadata that the issuer's own discovery document names.
  pub record Discovered (m : OidcMetadata) : Type 0 where
    pub document : Fields
    pub from_issuer : Served metadata_url document
    pub names_issuer : is_text config.issuer (get "issuer" document) ≡ true
    pub names_uri : get "jwks_uri" document ≡ str m.jwks_uri
    pub https : startswith m.jwks_uri "https://" ≡ true

  -- Keys that were served under the URI of discovered metadata.
  pub record Published (keys : Fields) : Type 0 where
    pub metadata : OidcMetadata
    pub discovered : Discovered metadata
    pub served : Served metadata.jwks_uri keys

  -- The cache holds discovered metadata and published keys only.
  pub record Sound (cache : Cache) : Type 0 where
    pub metadata : (m : OidcMetadata) → cache.metadata ≡ some m → Discovered m
    pub jwks : (keys : Fields) → cache.jwks ≡ some keys → Published keys

  cached_metadata-some :
      (now : ℕ) (cache : Cache) (m : OidcMetadata)
      → cached_metadata now cache ≡ some m
      → cache.metadata ≡ some m
  unfolding cached_metadata
  cached_metadata-some now cache m h = ground (arith, h)

  cached_jwks-some :
      (now : ℕ) (refresh : Bool) (cache : Cache) (keys : Fields)
      → cached_jwks now refresh cache ≡ some keys
      → cache.jwks ≡ some keys
  unfolding cached_jwks
  cached_jwks-some now true cache keys h = cc
  cached_jwks-some now false cache keys h = ground (arith, h)

  module _ {E : Type 0} (http_get : String → Exec (E × Cache) Reply) (monotonic : E × Cache → ℕ)
      (cache_ttl : ℕ)
      (served : (url : String)
        → Yields
            (λ w. Sound w.1)
            (λ reply.
              (document : Fields) → provider_payload reply ≡ ok document → Served url document)
            (http_get url)) where
    abbrev pub Keeps : E × Cache → Type 0
    Keeps w = Sound w.1

    save_metadata-Discovered :
        (now : ℕ) (m : OidcMetadata)
        → Discovered m
        → Yields Keeps Discovered
            (save_metadata http_get monotonic urljoin jwt config cache_ttl now m)
    save_metadata-Discovered now m found (env, cache) inv = (
      record { metadata = λ n e. subst Discovered (some-injective m n e) found; jwks = inv.jwks },
      λ n e. subst Discovered (ok-injective e) found,
    )

    fetch_metadata-Discovered :
        (now : ℕ)
        → Yields Keeps Discovered
            (fetch_metadata http_get monotonic urljoin jwt config cache_ttl now)
    unfolding fetch_metadata
    fetch_metadata-Discovered now = Yields-bind Keeps _ _ _ _ (served metadata_url) (λ reply from.
        Yields-bind Keeps (Served metadata_url) _ _ _ (Yields-pure Keeps _ _ from)
          (λ payload origin.
            Yields-bind Keeps Discovered _ _ _
              (Yields-pure Keeps _ _ (λ m e.
                let (issued, named, https) = metadata_of-ok config payload m e in
                record {
                  document = payload;
                  from_issuer = origin;
                  names_issuer = issued;
                  names_uri = named;
                  https = https;
                }))
              (save_metadata-Discovered now)))

    metadata_or-Discovered :
        (now : ℕ) (cached : Option OidcMetadata)
        → ((m : OidcMetadata) → cached ≡ some m → Discovered m)
        → Yields Keeps Discovered
            (metadata_or http_get monotonic urljoin jwt config cache_ttl now cached)
    metadata_or-Discovered now none h = fetch_metadata-Discovered now
    metadata_or-Discovered now (some m) h =
        Yields-pure Keeps _ _ (λ n e. subst Discovered (ok-injective e) (h m refl))

    metadata_document-Discovered :
        Yields Keeps Discovered (metadata_document http_get monotonic urljoin jwt config cache_ttl)
    unfolding metadata_document
    metadata_document-Discovered w inv =
        metadata_or-Discovered (monotonic w) _
          (λ m e. inv.metadata m (cached_metadata-some _ w.1 m e)) w inv

    save_jwks-Published :
        (now : ℕ) (keys : Fields)
        → Published keys
        → Yields Keeps Published
            (save_jwks http_get monotonic urljoin jwt config cache_ttl now keys)
    save_jwks-Published now keys found (env, cache) inv = (
      record {
        metadata = inv.metadata;
        jwks = λ other e. subst Published (some-injective keys other e) found;
      },
      λ other e. subst Published (ok-injective e) found,
    )

    fetch_jwks-Published :
        (now : ℕ)
        → Yields Keeps Published (fetch_jwks http_get monotonic urljoin jwt config cache_ttl now)
    unfolding fetch_jwks
    fetch_jwks-Published now =
        Yields-bind Keeps Discovered _ _ _ metadata_document-Discovered (λ m found.
          Yields-bind Keeps _ _ _ _ (served m.jwks_uri) (λ reply from.
            Yields-bind Keeps (Served m.jwks_uri) _ _ _ (Yields-pure Keeps _ _ from) (λ keys origin.
              save_jwks-Published now keys
                (record { metadata = m; discovered = found; served = origin }))))

    jwks_or-Published :
        (now : ℕ) (cached : Option Fields)
        → ((keys : Fields) → cached ≡ some keys → Published keys)
        → Yields Keeps Published
            (jwks_or http_get monotonic urljoin jwt config cache_ttl now cached)
    jwks_or-Published now none h = fetch_jwks-Published now
    jwks_or-Published now (some keys) h =
        Yields-pure Keeps _ _ (λ other e. subst Published (ok-injective e) (h keys refl))

    pub jwks_document-Published :
        (refresh : Bool)
        → Yields Keeps Published
            (jwks_document http_get monotonic urljoin jwt config cache_ttl refresh)
    unfolding jwks_document
    jwks_document-Published refresh w inv =
        jwks_or-Published (monotonic w) _
          (λ keys e. inv.jwks keys (cached_jwks-some _ refresh w.1 keys e)) w inv
