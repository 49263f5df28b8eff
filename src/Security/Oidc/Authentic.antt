-- ===== src/Security/Oidc/Authentic.antt =====
-- What `authenticate` has made sure of when it returns a principal.
use github_webhook_monitor.Prelude.{
  subst, ℕ, String, Bool, true, false, Option, none, some, subst, ◌≡◌, ap, ◌∙◌,
}
use github_webhook_monitor.Errors.{ok-injective, ok, or_raise-ok}
use github_webhook_monitor.Domain.Json.{Fields}
use github_webhook_monitor.Domain.Management.{ManagementPrincipal}
use github_webhook_monitor.Integrations.GitHub.{Reply}
use github_webhook_monitor.Security.Tokens.{Credentials, is_bearer}
use github_webhook_monitor.Services.Exec.{Exec}
use github_webhook_monitor.Services.Exec.Yields.{Yields, Yields-pure, Yields-bind, Yields-weaken}
use github_webhook_monitor.Security.Oidc.{
  OidcJwtConfig, Cache, Jwt, provider_payload, bearer_token, token_header,
}
use github_webhook_monitor.Security.Oidc.Keys.{Holds, key_in-Holds}
use github_webhook_monitor.Security.Oidc.Published.{Published, Sound, jwks_document-Published}
use github_webhook_monitor.Security.Oidc.Accepted.{
  HeaderAccepted, ClaimsAccepted, token_header-HeaderAccepted, verified_principal-ClaimsAccepted,
  bearer_token-ok,
}
use github_webhook_monitor.Security.Oidc.Authenticator.{
  signing_key_for, or_refreshed, verified_by, authenticate,
}

-- `Served url document`: the document was the answer to a request for the URL.
module _ (Served : String → Fields → Type 0) (urljoin : String → String → String) (jwt : Jwt)
    (config : OidcJwtConfig) where
  pub record KeyPublished (kid : Option String) (alg : String) (key : jwt.SigningKey) : Type 0 where
    pub keys : Fields
    pub published : Published Served urljoin jwt config keys
    pub holds : Holds jwt kid alg keys key

  -- The reasons for which a principal is returned.
  pub record Authentic (credentials : Option Credentials) (p : ManagementPrincipal) : Type 0 where
    pub bearer : Credentials
    pub presented : credentials ≡ some bearer
    pub scheme : is_bearer bearer ≡ true
    pub alg : String
    pub kid : Option String
    pub header : HeaderAccepted jwt config bearer.credentials alg kid
    pub key : jwt.SigningKey
    pub signer : KeyPublished kid alg key
    pub claims : ClaimsAccepted jwt config bearer.credentials key p

  abbrev Finds : Option String → String → Option jwt.SigningKey → Type 0
  Finds kid alg found = (key : jwt.SigningKey) → found ≡ some key → KeyPublished kid alg key

  module _ {E : Type 0} (http_get : String → Exec (E × Cache) Reply) (monotonic : E × Cache → ℕ)
      (cache_ttl : ℕ)
      (served : (url : String)
        → Yields
            (λ w. Sound Served urljoin jwt config w.1)
            (λ reply.
              (document : Fields) → provider_payload reply ≡ ok document → Served url document)
            (http_get url)) where
    abbrev Keeps : E × Cache → Type 0
    Keeps w = Sound Served urljoin jwt config w.1

    signing_key_for-Finds :
        (kid : Option String) (alg : String) (refresh : Bool)
        → Yields Keeps
            (Finds kid alg)
            (signing_key_for http_get monotonic urljoin jwt config cache_ttl kid alg refresh)
    unfolding signing_key_for
    signing_key_for-Finds kid alg refresh =
        Yields-bind Keeps (Published Served urljoin jwt config) _ _ _
          (jwks_document-Published Served urljoin jwt config http_get monotonic cache_ttl served
            refresh)
          (λ keys published. Yields-pure Keeps (Finds kid alg) _ (λ found e key same. record {
            keys = keys;
            published = published;
            holds = key_in-Holds jwt kid alg keys key (e ∙ ap ok same);
          }))

    or_refreshed-Finds :
        (kid : Option String) (alg : String) (first : Option jwt.SigningKey)
        → Finds kid alg first
        → Yields Keeps
            (Finds kid alg)
            (or_refreshed http_get monotonic urljoin jwt config cache_ttl kid alg first)
    unfolding or_refreshed
    or_refreshed-Finds kid alg (some key) h =
        Yields-pure Keeps (Finds kid alg) _ (λ found e. subst (Finds kid alg) (ok-injective e) h)
    or_refreshed-Finds none alg none h =
        Yields-pure Keeps (Finds none alg) _ (λ found e. subst (Finds none alg) (ok-injective e) h)
    or_refreshed-Finds (some kid) alg none h = signing_key_for-Finds (some kid) alg true

    abbrev Verifies : String → String → Option String → ManagementPrincipal → Type 0
    Verifies token alg kid p =
        (key : jwt.SigningKey) × KeyPublished kid alg key × ClaimsAccepted jwt config token key p

    verified_by-Verifies :
        (token alg : String) (kid : Option String)
        → Yields Keeps
            (Verifies token alg kid)
            (verified_by http_get monotonic urljoin jwt config cache_ttl token (alg, kid))
    unfolding verified_by
    verified_by-Verifies token alg kid =
        Yields-bind Keeps (Finds kid alg) _ _ _ (signing_key_for-Finds kid alg false) (λ first h.
          Yields-bind Keeps (Finds kid alg) _ _ _ (or_refreshed-Finds kid alg first h) (λ found g.
            Yields-bind Keeps (KeyPublished kid alg) (Verifies token alg kid) _ _
              (Yields-pure Keeps _ _ (λ key e. g key (or_raise-ok _ _ e)))
              (λ key signer. Yields-pure Keeps _ _ (λ p e.
                (key, signer, verified_principal-ClaimsAccepted jwt config token key p e)))))

    verified_by-Authentic :
        (credentials : Option Credentials) (token alg : String) (kid : Option String)
        → bearer_token credentials ≡ ok token
        → token_header jwt config token ≡ ok (alg, kid)
        → Yields Keeps
            (Authentic credentials)
            (verified_by http_get monotonic urljoin jwt config cache_ttl token (alg, kid))
    verified_by-Authentic credentials token alg kid presented accepted =
        let (bearer, same, scheme, text) = bearer_token-ok credentials presented in
        Yields-weaken Keeps (Verifies token alg kid) _
          (verified_by http_get monotonic urljoin jwt config cache_ttl token (alg, kid))
          (λ p (key, signer, claims). record {
            bearer = bearer;
            presented = same;
            scheme = scheme;
            alg = alg;
            kid = kid;
            header = rw text (token_header-HeaderAccepted jwt config token alg kid accepted);
            key = key;
            signer = signer;
            claims = rw text claims;
          })
          (verified_by-Verifies token alg kid)

    authenticate-Yields :
        (credentials : Option Credentials)
        → Yields Keeps
            (Authentic credentials)
            (authenticate http_get monotonic urljoin jwt config cache_ttl credentials)
    unfolding authenticate
    authenticate-Yields credentials =
        Yields-bind Keeps (λ token. bearer_token credentials ≡ ok token) _ _ _
          (Yields-pure Keeps _ _ (λ token e. e))
          (λ token presented.
            Yields-bind Keeps (λ header. token_header jwt config token ≡ ok header) _ _ _
              (Yields-pure Keeps _ _ (λ header e. e))
              (λ header. verified_by-Authentic credentials token (header.0) (header.1) presented))

    -- With such a cache a principal is returned only for a bearer token with an accepted header,
    -- whose claims are accepted under a key that published keys have for the token's key id and
    -- algorithm: keys served, now or earlier, under the https URI that the issuer's own discovery
    -- document names. Requests have to keep the cache so, whatever other tasks do meanwhile.
    pub authenticate-Authentic :
        (credentials : Option Credentials) (w : E × Cache) (p : ManagementPrincipal)
        → Sound Served urljoin jwt config w.1
        → (authenticate http_get monotonic urljoin jwt config cache_ttl credentials w).0 ≡ ok p
        → Authentic credentials p
    authenticate-Authentic credentials w p sound e = (authenticate-Yields credentials w sound).1 p e

    -- Whether it returns a principal or raises, authentication leaves a cache with only discovered
    -- metadata and published keys so, if requests do.
    pub authenticate-Sound :
        (credentials : Option Credentials) (w : E × Cache)
        → Sound Served urljoin jwt config w.1
        → Sound Served urljoin jwt config
            (authenticate http_get monotonic urljoin jwt config cache_ttl credentials w).1.1
    authenticate-Sound credentials w sound = (authenticate-Yields credentials w sound).0
