-- ===== src/Security/Oidc/Raises.antt =====
-- The exceptions of the authenticator's methods, where a request gives a reply or a fault.
use github_webhook_monitor.Prelude.{ℕ, String, Bool, true, false, Option, none, some, refl}
use github_webhook_monitor.Errors.{Result, ok, err, invalid_management_token, or_raise}
use github_webhook_monitor.Domain.Json.{Fields}
use github_webhook_monitor.Integrations.GitHub.{Reply}
use github_webhook_monitor.Security.Tokens.{Credentials}
use github_webhook_monitor.Services.Exec.{Exec, pure, continue, ◌>>=◌}
use github_webhook_monitor.Security.Oidc.{
  OidcJwtConfig, OidcMetadata, Cache, Jwt, provider_payload, metadata_of, bearer_token,
  token_header,
}
use github_webhook_monitor.Security.Oidc.Authenticator.{
  fetch_metadata, metadata_or, metadata_document, fetch_jwks, jwks_or, jwks_document,
  signing_key_for, or_refreshed, verified_by, authenticate,
}
use github_webhook_monitor.Security.Oidc.Refusals.{
  Refuses, is_refusal, or_raise-Refuses, bearer_token-Refuses, provider_payload-Refuses,
  metadata_of-Refuses, token_header-Refuses, verified_principal-Refuses, key_in-Refuses,
}

-- The method raises refusals only.
abbrev pub Guarded {ℓ κ} : {W : Type ℓ} {A : Type κ} → Exec W A → Type ℓ
Guarded m = (w : _) → Refuses ((m w).0)

continue-Guarded {ℓ κ μ} :
    {W : Type ℓ} {A : Type κ} {B : Type μ} (r : Result A) (w : W) (f : A → Exec W B)
    → Refuses r
    → ((a : A) → Guarded (f a))
    → Refuses ((continue r w f).0)
continue-Guarded (ok a) w f h g = g a w
continue-Guarded (err e) w f h g = h

bind-Guarded {ℓ κ μ} :
    {W : Type ℓ} {A : Type κ} {B : Type μ} (m : Exec W A) (f : A → Exec W B)
    → Guarded m
    → ((a : A) → Guarded (f a))
    → Guarded (m >>= f)
bind-Guarded m f h g w = continue-Guarded (m w).0 (m w).1 f (h w) g

module _ {E : Type 0} (http_get : String → Exec (E × Cache) Reply) (monotonic : E × Cache → ℕ)
    (urljoin : String → String → String) (jwt : Jwt) (config : OidcJwtConfig) (cache_ttl : ℕ)
    (replies : (url : String) → Guarded (http_get url)) where
  fetch_metadata-Guarded :
      (now : ℕ) → Guarded (fetch_metadata http_get monotonic urljoin jwt config cache_ttl now)
  unfolding fetch_metadata
  fetch_metadata-Guarded now = bind-Guarded _ _ (replies _) (λ reply.
      bind-Guarded (pure (provider_payload reply)) _ (λ w. provider_payload-Refuses reply)
        (λ payload.
          bind-Guarded (pure (metadata_of config payload)) _
            (λ w. metadata_of-Refuses config payload) (λ m w. refl)))

  metadata_or-Guarded :
      (now : ℕ) (cached : Option OidcMetadata)
      → Guarded (metadata_or http_get monotonic urljoin jwt config cache_ttl now cached)
  metadata_or-Guarded now none w = fetch_metadata-Guarded now w
  metadata_or-Guarded now (some m) w = refl

  metadata_document-Guarded :
      Guarded (metadata_document http_get monotonic urljoin jwt config cache_ttl)
  unfolding metadata_document
  metadata_document-Guarded w = metadata_or-Guarded (monotonic w) _ w

  fetch_jwks-Guarded :
      (now : ℕ) → Guarded (fetch_jwks http_get monotonic urljoin jwt config cache_ttl now)
  unfolding fetch_jwks
  fetch_jwks-Guarded now = bind-Guarded _ _ metadata_document-Guarded (λ m.
      bind-Guarded _ _ (replies m.jwks_uri) (λ reply.
        bind-Guarded (pure (provider_payload reply)) _ (λ w. provider_payload-Refuses reply)
          (λ keys w. refl)))

  jwks_or-Guarded :
      (now : ℕ) (cached : Option Fields)
      → Guarded (jwks_or http_get monotonic urljoin jwt config cache_ttl now cached)
  jwks_or-Guarded now none w = fetch_jwks-Guarded now w
  jwks_or-Guarded now (some keys) w = refl

  signing_key_for-Guarded :
      (kid : Option String) (alg : String) (refresh : Bool)
      → Guarded (signing_key_for http_get monotonic urljoin jwt config cache_ttl kid alg refresh)
  unfolding signing_key_for jwks_document
  signing_key_for-Guarded kid alg refresh =
      bind-Guarded (jwks_document http_get monotonic urljoin jwt config cache_ttl refresh) _
        (λ w. jwks_or-Guarded (monotonic w) _ w) (λ keys w. key_in-Refuses jwt kid alg keys)

  or_refreshed-Guarded :
      (kid : Option String) (alg : String) (first : Option jwt.SigningKey)
      → Guarded (or_refreshed http_get monotonic urljoin jwt config cache_ttl kid alg first)
  unfolding or_refreshed
  or_refreshed-Guarded kid alg (some key) w = refl
  or_refreshed-Guarded none alg none w = refl
  or_refreshed-Guarded (some kid) alg none w = signing_key_for-Guarded (some kid) alg true w

  -- Authentication raises refusals only.
  pub authenticate-Guarded :
      (credentials : Option Credentials)
      → Guarded (authenticate http_get monotonic urljoin jwt config cache_ttl credentials)
  unfolding authenticate verified_by is_refusal
  authenticate-Guarded credentials =
      bind-Guarded (pure (bearer_token credentials)) _ (λ w. bearer_token-Refuses credentials)
        (λ token.
          bind-Guarded (pure (token_header jwt config token)) _
            (λ w. token_header-Refuses jwt config token)
            (λ header.
              bind-Guarded _ _ (signing_key_for-Guarded (header.1) (header.0) false) (λ first.
                bind-Guarded _ _ (or_refreshed-Guarded (header.1) (header.0) first) (λ found.
                  bind-Guarded (pure (or_raise found invalid_management_token)) _
                    (λ w. or_raise-Refuses found _ refl)
                    (λ key w. verified_principal-Refuses jwt config token key)))))
