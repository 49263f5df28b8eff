-- ===== src/Security/Oidc/Keys.antt =====
-- The choice of the signing key.
use github_webhook_monitor.Prelude.{
  String, false, Option, none, some, ◌≡◌, ◌∙◌, arith, Bool-cases, inl, inr, if◌then◌else◌,
}
use github_webhook_monitor.Errors.{
  Result, ok, err, invalid_management_token, identity_provider_unavailable, raise_if, or_raise,
  or_raise-ok, ok-injective, ◌>>=◌, ◌>>◌, bind-ok, raise_if-ok,
}
use github_webhook_monitor.Domain.Json.{
  Json, null, bool, int, real, str, arr, obj, Items, nil, cons, Fields, get,
}
use github_webhook_monitor.Security.Oidc.{
  Jwt, is_text, is_other_key, is_other_algorithm, jwks_keys, is_ambiguous,
}

module _ (jwt : Jwt) (kid : Option String) (alg : String) where
  -- The key that an entry of the document stands for.
  unfoldable pub key_of : Fields → Result (Option jwt.SigningKey)
  key_of jwk = do
    key ← or_raise (jwt.key_from_dict jwk alg) identity_provider_unavailable
    ok (some key)

  -- The loop of `_signing_key_for`.
  unfoldable pub select_key : Items → Result (Option jwt.SigningKey)
  select_key nil = ok none
  select_key (cons (obj jwk) keys) =
      let rest = select_key keys in
      if is_other_key kid jwk
      then rest
      else if is_text "oct" (get "kty" jwk)
      then err invalid_management_token
      else if is_other_algorithm alg jwk
      then rest
      else key_of jwk
  select_key (cons _ keys) = select_key keys

  -- The body of `_signing_key_for` behind the document.
  unfoldable pub key_in : Fields → Result (Option jwt.SigningKey)
  key_in document = do
    keys ← jwks_keys (get "keys" document)
    raise_if (is_ambiguous kid keys) invalid_management_token
    select_key keys

  -- An entry of the document that may verify a token with this key id and algorithm.
  pub record Signs (jwk : Fields) (key : jwt.SigningKey) : Type 0 where
    pub same_id : is_other_key kid jwk ≡ false
    pub asymmetric : is_text "oct" (get "kty" jwk) ≡ false
    pub same_algorithm : is_other_algorithm alg jwk ≡ false
    pub made : jwt.key_from_dict jwk alg ≡ some key

  pub data Listed (P : Fields → Type 0) : Items → Type 0 where
    here : (jwk : Fields) (keys : Items) → P jwk → Listed P (cons (obj jwk) keys)
    there : (value : Json) (keys : Items) → Listed P keys → Listed P (cons value keys)

  key_of-some :
      (jwk : Fields) (key : jwt.SigningKey)
      → key_of jwk ≡ ok (some key)
      → jwt.key_from_dict jwk alg ≡ some key
  unfolding key_of
  key_of-some jwk key h =
      let (k, e, g) =
        bind-ok (or_raise (jwt.key_from_dict jwk alg) identity_provider_unavailable) _ h in
      or_raise-ok _ _ e ∙ ok-injective g

  -- A key that is chosen comes from an entry of the document with the token's key id and algorithm
  -- that is no symmetric key.
  pub select_key-Signs :
      (keys : Items) (key : jwt.SigningKey)
      → select_key keys ≡ ok (some key)
      → Listed (λ jwk. Signs jwk key) keys
  unfolding select_key
  select_key-Signs nil key h = absurd (ground arith)
  select_key-Signs (cons (obj jwk) keys) key h = elim (Bool-cases (is_other_key kid jwk)) [
    | inl o ↦ there (obj jwk) keys (select_key-Signs keys key (rw o at h))
    | inr o ↦ elim (Bool-cases (is_text "oct" (get "kty" jwk))) [
      | inl s ↦ absurd (ground (arith, o, s))
      | inr s ↦ elim (Bool-cases (is_other_algorithm alg jwk)) [
        | inl a ↦ there (obj jwk) keys (select_key-Signs keys key (rw (o, s, a) at h))
        | inr a ↦ here jwk keys (record {
          same_id = o;
          asymmetric = s;
          same_algorithm = a;
          made = key_of-some jwk key (rw (o, s, a) at h);
        })
      ]
    ]
  ]
  select_key-Signs (cons null keys) key h = there _ keys (select_key-Signs keys key h)
  select_key-Signs (cons (bool b) keys) key h = there _ keys (select_key-Signs keys key h)
  select_key-Signs (cons (int n) keys) key h = there _ keys (select_key-Signs keys key h)
  select_key-Signs (cons (real r) keys) key h = there _ keys (select_key-Signs keys key h)
  select_key-Signs (cons (str s) keys) key h = there _ keys (select_key-Signs keys key h)
  select_key-Signs (cons (arr xs) keys) key h = there _ keys (select_key-Signs keys key h)

  -- A document in which the token's key was found: the key is unambiguous and made from an entry.
  pub record Holds (document : Fields) (key : jwt.SigningKey) : Type 0 where
    pub keys : Items
    pub listed_under : get "keys" document ≡ arr keys
    pub unambiguous : is_ambiguous kid keys ≡ false
    pub signer : Listed (λ jwk. Signs jwk key) keys

  jwks_keys-ok : (value : Json) {keys : Items} → jwks_keys value ≡ ok keys → value ≡ arr keys
  unfolding jwks_keys
  jwks_keys-ok (arr (cons key keys)) h = ground (arith, h)
  jwks_keys-ok (arr nil) h = absurd (ground arith)
  jwks_keys-ok null h = absurd (ground arith)
  jwks_keys-ok (bool b) h = absurd (ground arith)
  jwks_keys-ok (int n) h = absurd (ground arith)
  jwks_keys-ok (real r) h = absurd (ground arith)
  jwks_keys-ok (str s) h = absurd (ground arith)
  jwks_keys-ok (obj o) h = absurd (ground arith)

  pub key_in-Holds :
      (document : Fields) (key : jwt.SigningKey)
      → key_in document ≡ ok (some key)
      → Holds document key
  unfolding key_in
  key_in-Holds document key h =
      let (keys, e, h1) = bind-ok (jwks_keys (get "keys" document)) _ h in
      let (u, one, h2) = bind-ok (raise_if (is_ambiguous kid keys) invalid_management_token) _ h1 in
      record {
        keys = keys;
        listed_under = jwks_keys-ok _ e;
        unambiguous = raise_if-ok _ _ one;
        signer = select_key-Signs keys key h2;
      }
