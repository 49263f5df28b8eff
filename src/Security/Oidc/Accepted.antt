-- ===== src/Security/Oidc/Accepted.antt =====
-- The headers and claims that `authenticate` accepts.
use github_webhook_monitor.Prelude.{
  String, Bool, true, false, Option, some, List, ◌≡◌, refl, ap, ◌∙◌, sym, arith, not, ◌||◌,
  is_blank, str_eq, str_in, split_words, startswith,
}
use github_webhook_monitor.Errors.{
  identity_provider_unavailable, raise_if, ok-injective, Exn, ok, raise_if, ◌>>=◌, ◌>>◌,
  invalid_management_token, bind-ok, raise_if-ok, or_raise-ok, or_raise,
}
use github_webhook_monitor.Domain.Json.{
  Json, null, bool, int, real, str, arr, obj, Fields, get, as_text, as_text-some,
}
use github_webhook_monitor.Domain.Management.{ManagementPrincipal, authentication_method_oidc_jwt}
use github_webhook_monitor.Security.Algorithms.{is_rejected_algorithm}
use github_webhook_monitor.Security.Tokens.{Credentials, is_bearer}
use github_webhook_monitor.Security.Oidc.{
  https_uri, OidcJwtConfig, OidcMetadata, Jwt, is_text, check_type, check_algorithm, check_key_id,
  checked_header, required_claim, parse_scope_claim, claims_principal, metadata_of, bearer_token,
  token_header, verified_principal,
}

-- A header with the type of an access token and an asymmetric algorithm of the configuration.
pub record HeaderAccepted (jwt : Jwt) (config : OidcJwtConfig) (token : String) (alg : String)
    (kid : Option String) : Type 0 where
  pub header : Fields
  pub parsed : jwt.get_unverified_header token ≡ some header
  pub typ : String
  pub has_type : get "typ" header ≡ str typ
  pub access_token : (str_eq typ "at+jwt" || str_eq typ "application/at+jwt") ≡ true
  pub has_algorithm : get "alg" header ≡ str alg
  pub allowed : str_in alg config.allowed_algorithms ≡ true
  pub asymmetric : is_rejected_algorithm alg ≡ false
  pub has_key_id : check_key_id (get "kid" header) ≡ ok kid

-- Verified claims, and the principal that they make.
pub record ClaimsAccepted (jwt : Jwt) (config : OidcJwtConfig) (token : String)
    (key : jwt.SigningKey) (p : ManagementPrincipal) : Type 0 where
  pub claims : Fields
  pub verified :
      jwt.decode token key config.allowed_algorithms config.audience config.issuer ≡ some claims
  pub subject : String
  pub client_id : String
  pub jwt_id : String
  pub scope : String
  pub has_subject : (get "sub" claims ≡ str subject) × (is_blank subject ≡ false)
  pub has_client_id : (get "client_id" claims ≡ str client_id) × (is_blank client_id ≡ false)
  pub has_jwt_id : (get "jti" claims ≡ str jwt_id) × (is_blank jwt_id ≡ false)
  pub has_scope : get "scope" claims ≡ str scope
  pub principal : ◌≡◌ {A = ManagementPrincipal} p (record {
    authentication_method = authentication_method_oidc_jwt;
    issuer = some config.issuer;
    subject = some subject;
    client_id = some client_id;
    scopes = split_words scope;
  })

check_type-ok :
    (value : Json) {u : Unit {0}}
    → check_type value ≡ ok u
    → (typ : String) × (value ≡ str typ)
      × ((str_eq typ "at+jwt" || str_eq typ "application/at+jwt") ≡ true)
unfolding check_type
check_type-ok (str typ) h =
    let n = raise_if-ok (not (str_eq typ "at+jwt" || str_eq typ "application/at+jwt")) _ h in
    (typ, refl, ground (arith, n))
check_type-ok null h = absurd (ground arith)
check_type-ok (bool b) h = absurd (ground arith)
check_type-ok (int n) h = absurd (ground arith)
check_type-ok (real r) h = absurd (ground arith)
check_type-ok (arr xs) h = absurd (ground arith)
check_type-ok (obj o) h = absurd (ground arith)

-- A test that raises did not hold, if the rest is reached.
tested_text :
    (value : Json) (test : String → Bool) (e x : Exn) {s : String}
    → (do text ← or_raise (as_text value) e; raise_if (test text) x; ok text) ≡ ok s
    → (value ≡ str s) × (test s ≡ false)
tested_text value test e x h =
    let (text, f, h1) = bind-ok (or_raise (as_text value) e) _ h in
    let (u, g, h2) = bind-ok (raise_if (test text) x) _ h1 in
    let same = ok-injective h2 in
    (
      as_text-some value (or_raise-ok (as_text value) e f ∙ ap some same),
      raise_if-ok (test _) x (rw same at g),
    )

check_algorithm-ok :
    (allowed : List String) (value : Json) {alg : String}
    → check_algorithm allowed value ≡ ok alg
    → (value ≡ str alg) × (str_in alg allowed ≡ true) × (is_rejected_algorithm alg ≡ false)
unfolding check_algorithm
check_algorithm-ok allowed value {alg} h =
    let (text, f, h1) = bind-ok (or_raise (as_text value) invalid_management_token) _ h in
    let (u, g, h2) = bind-ok (raise_if (not (str_in text allowed)) invalid_management_token) _ h1 in
    let (v, k, h3) =
      bind-ok (raise_if (is_rejected_algorithm text) invalid_management_token) _ h2 in
    let same = ok-injective h3 in
    let known = raise_if-ok (not (str_in text allowed)) _ g in
    (
      as_text-some value (or_raise-ok (as_text value) invalid_management_token f ∙ ap some same),
      rw (sym same) (ground (arith, known)),
      rw (sym same) (raise_if-ok _ _ k),
    )

required_claim-ok :
    (value : Json) {s : String}
    → required_claim value ≡ ok s
    → (value ≡ str s) × (is_blank s ≡ false)
unfolding required_claim
required_claim-ok value h = tested_text value is_blank _ _ h

parse_scope_claim-ok :
    (value : Json) {scopes : List String}
    → parse_scope_claim value ≡ ok scopes
    → (s : String) × (value ≡ str s) × (scopes ≡ split_words s)
unfolding parse_scope_claim
parse_scope_claim-ok value h =
    let (text, f, h1) = bind-ok (or_raise (as_text value) invalid_management_token) _ h in
    (text, as_text-some value (or_raise-ok _ _ f), sym (ok-injective h1))

module _ (jwt : Jwt) (config : OidcJwtConfig) (token : String) where
  pub token_header-HeaderAccepted :
      (alg : String) (kid : Option String)
      → token_header jwt config token ≡ ok (alg, kid)
      → HeaderAccepted jwt config token alg kid
  unfolding token_header checked_header
  token_header-HeaderAccepted alg kid h =
      let (header, e, h1) =
        bind-ok (or_raise (jwt.get_unverified_header token) invalid_management_token) _ h in
      let (u, t, h2) = bind-ok (check_type (get "typ" header)) _ h1 in
      let (a, f, h3) =
        bind-ok (check_algorithm config.allowed_algorithms (get "alg" header)) _ h2 in
      let (k, g, h4) = bind-ok (check_key_id (get "kid" header)) _ h3 in
      let (typ, has_type, access) = check_type-ok _ t in
      let same_alg = ap (λ x. x.0) (ok-injective h4) in
      let same_kid = ap (λ x. x.1) (ok-injective h4) in
      let (has_algorithm, allowed, asymmetric) =
        check_algorithm-ok config.allowed_algorithms (get "alg" header) (f ∙ ap ok same_alg) in
      record {
        header = header;
        parsed = or_raise-ok _ _ e;
        typ = typ;
        has_type = has_type;
        access_token = access;
        has_algorithm = has_algorithm;
        allowed = allowed;
        asymmetric = asymmetric;
        has_key_id = g ∙ ap ok same_kid;
      }

  pub verified_principal-ClaimsAccepted :
      (key : jwt.SigningKey) (p : ManagementPrincipal)
      → verified_principal jwt config token key ≡ ok p
      → ClaimsAccepted jwt config token key p
  unfolding verified_principal claims_principal
  verified_principal-ClaimsAccepted key p h =
      let (claims, e, h1) =
        bind-ok
          (or_raise (jwt.decode token key config.allowed_algorithms config.audience config.issuer)
            invalid_management_token)
          _ h in
      let (subject, s, h2) = bind-ok (required_claim (get "sub" claims)) _ h1 in
      let (client_id, c, h3) = bind-ok (required_claim (get "client_id" claims)) _ h2 in
      let (jwt_id, j, h4) = bind-ok (required_claim (get "jti" claims)) _ h3 in
      let (scopes, k, h5) = bind-ok (parse_scope_claim (get "scope" claims)) _ h4 in
      let (scope, has_scope, words) = parse_scope_claim-ok _ k in
      record {
        claims = claims;
        verified = or_raise-ok _ _ e;
        subject = subject;
        client_id = client_id;
        jwt_id = jwt_id;
        scope = scope;
        has_subject = required_claim-ok _ s;
        has_client_id = required_claim-ok _ c;
        has_jwt_id = required_claim-ok _ j;
        has_scope = has_scope;
        principal = rw (sym words) (sym (ok-injective h5));
      }

pub bearer_token-ok :
    (credentials : Option Credentials) {token : String}
    → bearer_token credentials ≡ ok token
    → (c : Credentials) × (credentials ≡ some c) × (is_bearer c ≡ true) × (c.credentials ≡ token)
unfolding bearer_token
bearer_token-ok credentials h =
    let (c, f, h1) = bind-ok (or_raise credentials invalid_management_token) _ h in
    let (u, g, h2) = bind-ok (raise_if (not (is_bearer c)) invalid_management_token) _ h1 in
    let bearer = raise_if-ok (not (is_bearer c)) _ g in
    (c, or_raise-ok _ _ f, ground (arith, bearer), ok-injective h2)

https_uri-ok :
    (value : Json) {uri : String}
    → https_uri value ≡ ok uri
    → (value ≡ str uri) × (startswith uri "https://" ≡ true)
unfolding https_uri
https_uri-ok value {uri} h =
    let (same, n) = tested_text value (λ s. not (startswith s "https://")) _ _ h in
    (same, ground (arith, n))

-- A discovery document with the configured issuer and a JWKS URI under https.
pub metadata_of-ok :
    (config : OidcJwtConfig) (document : Fields) (m : OidcMetadata)
    → metadata_of config document ≡ ok m
    → (is_text config.issuer (get "issuer" document) ≡ true)
      × (get "jwks_uri" document ≡ str m.jwks_uri)
      × (startswith m.jwks_uri "https://" ≡ true)
unfolding metadata_of
metadata_of-ok config document m h =
    let (u, e, h1) =
      bind-ok
        (raise_if (not (is_text config.issuer (get "issuer" document)))
          identity_provider_unavailable)
        _ h in
    let (uri, f, h2) = bind-ok (https_uri (get "jwks_uri" document)) _ h1 in
    let same = ap (λ x. x.jwks_uri) (ok-injective h2) in
    let issued = raise_if-ok (not (is_text config.issuer (get "issuer" document))) _ e in
    let (value, https) = https_uri-ok (get "jwks_uri" document) (f ∙ ap ok same) in
    (ground (arith, issued), value, https)
