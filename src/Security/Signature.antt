-- ===== src/Security/Signature.antt =====
-- `verify_github_signature` and `verify_management_token` of app/security.py.
use github_webhook_monitor.Prelude.{
  Bool-cases, inl, inr, ◌⊎◌, all_chars_mono, is_empty, ◌<>◌, ltb, all_chars, ℕ, String, Bool, true,
  false, Option, none, some, ◌≡◌, ◌↔◌, refl, ◌&&◌, ◌||◌, str_eq, is_ascii, Bytes, encode_utf8,
  if◌then◌else◌, eq_iff, arith,
}
use github_webhook_monitor.Errors.{Result, ok, err, type_error}
use github_webhook_monitor.Domain.Deliveries.{is_hex_digit, is_sha256_hex}

-- The digests of `hashlib` and `hmac`. `hexdigest()` gives the 64 hexadecimal digits of a SHA-256
-- value in lower case.
pub record Digests : Type 0 where
  pub sha256_hex : Bytes → String
  pub hmac_sha256_hex : (secret : Bytes) → (message : Bytes) → String
  pub sha256_is_hex : (message : Bytes) → is_sha256_hex (sha256_hex message) ≡ true
  pub hmac_is_hex : (secret message : Bytes) → is_sha256_hex (hmac_sha256_hex secret message) ≡ true

-- `hmac.compare_digest` of two texts: a TypeError unless both are ASCII
compare_digest_str : String → String → Result Bool
compare_digest_str a b = if is_ascii a && is_ascii b then ok (str_eq a b) else err type_error

hex_digit_ascii : (c : ℕ) → is_hex_digit c ≡ true → ltb c 128 ≡ true
unfolding is_hex_digit
hex_digit_ascii c h = ground arith

is_sha256_hex-is_ascii : (s : String) → is_sha256_hex s ≡ true → is_ascii s ≡ true
unfolding is_sha256_hex is_ascii
is_sha256_hex-is_ascii s h =
    all_chars_mono is_hex_digit (λ c. ltb c 128) hex_digit_ascii s (ground arith)

ascii_prefix : (s : String) → is_ascii s ≡ true → is_ascii ("sha256=" <> s) ≡ true
unfolding is_ascii all_chars
ascii_prefix s h = h

not_ascii_nil : is_ascii "" ≡ false → ⊥
unfolding is_ascii all_chars
not_ascii_nil h = cc

module _ (digests : Digests) where
  unfoldable pub expected_signature : Bytes → String → String
  expected_signature payload_body secret =
      "sha256=" <> digests.hmac_sha256_hex (encode_utf8 secret) payload_body

  unfoldable pub verify_github_signature : Bytes → Option String → String → Result Bool
  unfolding compare_digest_str
  verify_github_signature payload_body none secret = ok false
  verify_github_signature payload_body (some signature_header) secret =
      if is_empty signature_header || is_empty secret
      then ok false
      else compare_digest_str (expected_signature payload_body secret) signature_header

  expected_signature-is_ascii :
      (body : Bytes) (secret : String) → is_ascii (expected_signature body secret) ≡ true
  unfolding expected_signature
  expected_signature-is_ascii body secret =
      ascii_prefix _ (is_sha256_hex-is_ascii _ (digests.hmac_is_hex (encode_utf8 secret) body))

  expected_signature-ne-empty :
      (body : Bytes) (secret : String) → is_empty (expected_signature body secret) ≡ false
  unfolding expected_signature
  expected_signature-ne-empty body secret = refl

  -- A signature is accepted exactly if the secret is not empty and the header is the text
  -- `sha256=` followed by the hexadecimal HMAC of the body under the secret.
  pub verify_github_signature-ok_true_iff :
      (body : Bytes) (header : Option String) (secret : String)
      → (verify_github_signature body header secret ≡ ok true)
        ↔ ((is_empty secret ≡ false) × (header ≡ some (expected_signature body secret)))
  unfolding verify_github_signature
  verify_github_signature-ok_true_iff body none secret = (λ h. cc, λ h. cc (h.1))
  verify_github_signature-ok_true_iff body (some header) secret = (
    λ h. ground (arith, eq_iff (expected_signature body secret) header),
    λ h. ground (
      arith,
      eq_iff (expected_signature body secret) header,
      expected_signature-is_ascii body secret,
      expected_signature-ne-empty body secret,
    ),
  )

  -- With a secret that is not empty, a header with a character outside ASCII is not rejected: the
  -- comparison raises a TypeError.
  pub verify_github_signature-type_error :
      (body : Bytes) (header secret : String)
      → is_empty secret ≡ false
      → is_ascii header ≡ false
      → verify_github_signature body (some header) secret ≡ err type_error
  unfolding verify_github_signature
  verify_github_signature-type_error body String.[] secret s h = absurd (not_ascii_nil h)
  verify_github_signature-type_error body (String.◌∷◌ c header) secret s h =
      ground (arith, expected_signature-is_ascii body secret)

  -- Verification accepts, rejects, or raises the TypeError of the comparison.
  pub verify_github_signature-cases :
      (body : Bytes) (header : Option String) (secret : String)
      → (verify_github_signature body header secret ≡ ok true)
        ⊎ ((verify_github_signature body header secret ≡ ok false)
            ⊎ (verify_github_signature body header secret ≡ err type_error))
  unfolding verify_github_signature
  verify_github_signature-cases body none secret = inr (inl refl)
  verify_github_signature-cases body (some header) secret =
      elim (Bool-cases (is_empty header || is_empty secret)) [
        | inl e ↦ inr (inl (ground (arith, e)))
        | inr e ↦ elim (Bool-cases (is_ascii (expected_signature body secret) && is_ascii header)) [
          | inr n ↦ inr (inr (ground (arith, e, n)))
          | inl n ↦ elim (Bool-cases (str_eq (expected_signature body secret) header)) [
            | inl s ↦ inl (ground (arith, e, n, s))
            | inr s ↦ inr (inl (ground (arith, e, n, s)))
          ]
        ]
      ]
