-- ===== src/Security/Oidc/Refusals.antt =====
-- The exceptions that `authenticate` raises.
use github_webhook_monitor.Prelude.{
  String, Bool, true, false, Option, none, some, List, ◌≡◌, refl, not, ◌||◌, is_blank, str_in,
  startswith, leb, ◌==◌, if◌then◌else◌,
}
use github_webhook_monitor.Errors.{
  Exn, Result, ok, err, invalid_management_token, identity_provider_unavailable, type_error,
  raise_if, or_raise, ◌>>=◌, ◌>>◌,
}
use github_webhook_monitor.Domain.Json.{
  Json, null, bool, int, real, str, arr, obj, Items, nil, cons, Fields, get, as_text, as_dict,
}
use github_webhook_monitor.Integrations.GitHub.{Reply, response, fault}
use github_webhook_monitor.Security.Algorithms.{is_rejected_algorithm}
use github_webhook_monitor.Security.Tokens.{Credentials, is_bearer}
use github_webhook_monitor.Security.Oidc.{
  OidcJwtConfig, Jwt, check_type, check_algorithm, check_key_id, checked_header, required_claim,
  parse_scope_claim, claims_principal, provider_payload, https_uri, metadata_of, bearer_token,
  token_header, verified_principal, jwks_keys, is_ambiguous, is_text, is_other_key,
  is_other_algorithm,
}
use github_webhook_monitor.Security.Oidc.Keys.{key_of, select_key, key_in}

-- The token is invalid, the identity provider is unavailable, or a header cannot be hashed.
unfoldable pub is_refusal : Exn → Bool
is_refusal invalid_management_token = true
is_refusal identity_provider_unavailable = true
is_refusal type_error = true
is_refusal e = false

abbrev pub refuses {ℓ} : {A : Type ℓ} → Result A → Bool
refuses (ok a) = true
refuses (err e) = is_refusal e

abbrev pub Refuses {ℓ} : {A : Type ℓ} → Result A → Type 0
Refuses r = refuses r ≡ true

bind-Refuses {ℓ κ} :
    {A : Type ℓ} {B : Type κ} (r : Result A) (f : A → Result B)
    → Refuses r
    → ((a : A) → Refuses (f a))
    → Refuses (r >>= f)
bind-Refuses (ok a) f h g = g a
bind-Refuses (err e) f h g = h

pub or_raise-Refuses {ℓ} :
    {A : Type ℓ} (o : Option A) (e : Exn) → is_refusal e ≡ true → Refuses (or_raise o e)
or_raise-Refuses none e h = h
or_raise-Refuses (some a) e h = refl

raise_if-Refuses : (test : Bool) (e : Exn) → is_refusal e ≡ true → Refuses (raise_if test e)
raise_if-Refuses true e h = h
raise_if-Refuses false e h = refl

if-Refuses {ℓ} :
    {A : Type ℓ} (test : Bool) (r s : Result A)
    → Refuses r
    → Refuses s
    → Refuses (if test then r else s)
if-Refuses true r s h g = h
if-Refuses false r s h g = g

-- `isinstance(value, str)` and a test on the text, or an exception.
tested_text-Refuses :
    (value : Json) (test : String → Bool) (e x : Exn)
    → is_refusal e ≡ true
    → is_refusal x ≡ true
    → Refuses (do text ← or_raise (as_text value) e; raise_if (test text) x; ok text)
tested_text-Refuses value test e x h g =
    bind-Refuses (or_raise (as_text value) e) _ (or_raise-Refuses _ e h)
      (λ text. bind-Refuses (raise_if (test text) x) _ (raise_if-Refuses _ x g) (λ u. refl))

check_type-Refuses : (value : Json) → Refuses (check_type value)
unfolding check_type is_refusal
check_type-Refuses (str typ) = raise_if-Refuses _ invalid_management_token refl
check_type-Refuses null = refl
check_type-Refuses (bool b) = refl
check_type-Refuses (int n) = refl
check_type-Refuses (real r) = refl
check_type-Refuses (arr xs) = refl
check_type-Refuses (obj o) = refl

check_key_id-Refuses : (value : Json) → Refuses (check_key_id value)
unfolding check_key_id is_refusal
check_key_id-Refuses null = refl
check_key_id-Refuses (str s) = refl
check_key_id-Refuses (bool b) = refl
check_key_id-Refuses (int n) = refl
check_key_id-Refuses (real r) = refl
check_key_id-Refuses (arr xs) = refl
check_key_id-Refuses (obj o) = refl

check_algorithm-Refuses :
    (allowed : List String) (value : Json) → Refuses (check_algorithm allowed value)
unfolding check_algorithm is_refusal
check_algorithm-Refuses allowed value =
    bind-Refuses (or_raise (as_text value) invalid_management_token) _ (or_raise-Refuses _ _ refl)
      (λ alg.
        bind-Refuses (raise_if (not (str_in alg allowed)) invalid_management_token) _
          (raise_if-Refuses _ _ refl)
          (λ u.
            bind-Refuses (raise_if (is_rejected_algorithm alg) invalid_management_token) _
              (raise_if-Refuses _ _ refl) (λ v. refl)))

required_claim-Refuses : (value : Json) → Refuses (required_claim value)
unfolding required_claim is_refusal
required_claim-Refuses value = tested_text-Refuses value is_blank _ _ refl refl

parse_scope_claim-Refuses : (value : Json) → Refuses (parse_scope_claim value)
unfolding parse_scope_claim is_refusal
parse_scope_claim-Refuses value =
    bind-Refuses (or_raise (as_text value) invalid_management_token) _ (or_raise-Refuses _ _ refl)
      (λ text. refl)

pub bearer_token-Refuses : (credentials : Option Credentials) → Refuses (bearer_token credentials)
unfolding bearer_token is_refusal
bearer_token-Refuses credentials =
    bind-Refuses (or_raise credentials invalid_management_token) _ (or_raise-Refuses _ _ refl) (λ c.
      bind-Refuses (raise_if (not (is_bearer c)) invalid_management_token) _
        (raise_if-Refuses _ _ refl) (λ u. refl))

pub provider_payload-Refuses : (reply : Reply) → Refuses (provider_payload reply)
unfolding provider_payload is_refusal
provider_payload-Refuses (fault f) = refl
provider_payload-Refuses (response r) =
    bind-Refuses
      (raise_if (leb 500 r.status_code || r.status_code == 429) identity_provider_unavailable) _
      (raise_if-Refuses _ _ refl)
      (λ u.
        bind-Refuses (raise_if (not (r.status_code == 200)) invalid_management_token) _
          (raise_if-Refuses _ _ refl)
          (λ v.
            bind-Refuses (or_raise r.json identity_provider_unavailable) _
              (or_raise-Refuses _ _ refl) (λ json. or_raise-Refuses (as_dict json) _ refl)))

pub metadata_of-Refuses :
    (config : OidcJwtConfig) (payload : Fields) → Refuses (metadata_of config payload)
unfolding metadata_of https_uri is_refusal
metadata_of-Refuses config payload =
    bind-Refuses
      (raise_if (not (is_text config.issuer (get "issuer" payload))) identity_provider_unavailable)
      _ (raise_if-Refuses _ _ refl)
      (λ u.
        bind-Refuses (https_uri (get "jwks_uri" payload)) _
          (tested_text-Refuses (get "jwks_uri" payload) (λ s. not (startswith s "https://")) _ _
            refl refl)
          (λ uri. refl))

module _ (jwt : Jwt) (config : OidcJwtConfig) (token : String) where
  pub token_header-Refuses : Refuses (token_header jwt config token)
  unfolding token_header checked_header is_refusal
  token_header-Refuses =
      bind-Refuses (or_raise (jwt.get_unverified_header token) invalid_management_token) _
        (or_raise-Refuses _ _ refl)
        (λ header. bind-Refuses (check_type (get "typ" header)) _ (check_type-Refuses _) (λ u.
          bind-Refuses (check_algorithm config.allowed_algorithms (get "alg" header)) _
            (check_algorithm-Refuses config.allowed_algorithms _)
            (λ alg.
              bind-Refuses (check_key_id (get "kid" header)) _ (check_key_id-Refuses _)
                (λ kid. refl))))

  pub verified_principal-Refuses :
      (key : jwt.SigningKey) → Refuses (verified_principal jwt config token key)
  unfolding verified_principal claims_principal is_refusal
  verified_principal-Refuses key =
      bind-Refuses
        (or_raise (jwt.decode token key config.allowed_algorithms config.audience config.issuer)
          invalid_management_token)
        _ (or_raise-Refuses _ _ refl)
        (λ claims.
          bind-Refuses (required_claim (get "sub" claims)) _ (required_claim-Refuses _) (λ s.
            bind-Refuses (required_claim (get "client_id" claims)) _ (required_claim-Refuses _)
              (λ c.
                bind-Refuses (required_claim (get "jti" claims)) _ (required_claim-Refuses _) (λ j.
                  bind-Refuses (parse_scope_claim (get "scope" claims)) _
                    (parse_scope_claim-Refuses _) (λ k. refl)))))

jwks_keys-Refuses : (value : Json) → Refuses (jwks_keys value)
unfolding jwks_keys is_refusal
jwks_keys-Refuses (arr (cons key keys)) = refl
jwks_keys-Refuses (arr nil) = refl
jwks_keys-Refuses null = refl
jwks_keys-Refuses (bool b) = refl
jwks_keys-Refuses (int n) = refl
jwks_keys-Refuses (real r) = refl
jwks_keys-Refuses (str s) = refl
jwks_keys-Refuses (obj o) = refl

module _ (jwt : Jwt) (kid : Option String) (alg : String) where
  key_of-Refuses : (jwk : Fields) → Refuses (key_of jwt kid alg jwk)
  unfolding key_of is_refusal
  key_of-Refuses jwk =
      bind-Refuses (or_raise (jwt.key_from_dict jwk alg) identity_provider_unavailable) _
        (or_raise-Refuses _ _ refl) (λ key. refl)

  select_key-Refuses : (keys : Items) → Refuses (select_key jwt kid alg keys)
  unfolding select_key is_refusal
  select_key-Refuses nil = refl
  select_key-Refuses (cons (obj jwk) keys) =
      let rest = select_key-Refuses keys in
      if-Refuses (is_other_key kid jwk) _ _ rest (
        if-Refuses (is_text "oct" (get "kty" jwk)) _ _ refl
          (if-Refuses (is_other_algorithm alg jwk) _ _ rest (key_of-Refuses jwk)))
  select_key-Refuses (cons null keys) = select_key-Refuses keys
  select_key-Refuses (cons (bool b) keys) = select_key-Refuses keys
  select_key-Refuses (cons (int n) keys) = select_key-Refuses keys
  select_key-Refuses (cons (real r) keys) = select_key-Refuses keys
  select_key-Refuses (cons (str s) keys) = select_key-Refuses keys
  select_key-Refuses (cons (arr xs) keys) = select_key-Refuses keys

  pub key_in-Refuses : (document : Fields) → Refuses (key_in jwt kid alg document)
  unfolding key_in is_refusal
  key_in-Refuses document =
      bind-Refuses (jwks_keys (get "keys" document)) _ (jwks_keys-Refuses _) (λ keys.
        bind-Refuses (raise_if (is_ambiguous kid keys) invalid_management_token) _
          (raise_if-Refuses _ _ refl) (λ u. select_key-Refuses keys))
