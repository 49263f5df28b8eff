-- ===== src/Errors.antt =====
-- The exceptions of the program, and a computation that may raise one.
use github_webhook_monitor.Prelude.{ℕ, String, Bool, true, false, Option, List, ◌≡◌, refl, arith}

-- One constructor for each exception class that the program raises or that a library call which
-- it makes can raise. The three upstream errors carry `status_code` and `failure_category`.
pub data Exn : Type 0 where
  value_error type_error key_error runtime_error unicode_decode_error sqlalchemy_error
        validation_error attribute_error overflow_error argument_error client_disconnect :
      Exn
  delivery_store_error delivery_store_readiness_error : Exn
  recovery_action_store_error recovery_action_not_found invalid_recovery_action_transition : Exn
  invalid_webhook_signature malformed_webhook_payload : Exn
  invalid_delivery_attempts_cursor invalid_delivery_attempts_limit : Exn
  invalid_recovery_actions_cursor invalid_recovery_actions_limit : Exn
  reconciliation_disabled invalid_reconciliation_cursor unsupported_reconciliation_target : Exn
  redelivery_disabled unverified_redelivery_target redelivery_journal_unavailable : Exn
  identity_provider_unavailable invalid_management_token insufficient_management_scope : Exn
  upstream_unavailable upstream_protocol redelivery_outcome_unknown : Option ℕ → Option String → Exn
  http_exception : ℕ → String → List (String × String) → Exn

pub data Result {ℓ} (A : Type ℓ) : Type ℓ where
  ok : A → Result A
  err : Exn → Result A

module _ {ℓ κ} {A : Type ℓ} {B : Type κ} where
  infixl 5 ◌>>=◌
  abbrev pub ◌>>=◌ : Result A → (A → Result B) → Result B
  err x >>= next = err x
  ok value >>= next = next value

  -- A chain that succeeds has succeeded at its first step, and then at the rest.
  pub bind-ok :
      (first : Result A) (next : A → Result B) {done : B}
      → (first >>= next) ≡ ok done
      → (value : A) × (first ≡ ok value) × (next value ≡ ok done)
  bind-ok (err x) next h = absurd (ground arith)
  bind-ok (ok value) next h = (value, refl, h)

-- A step that is run for its exception only.
infixl 5 ◌>>◌
abbrev pub ◌>>◌ {ℓ} : {A : Type ℓ} → Result (Unit {0}) → Result A → Result A
step >> rest = step >>= λ done. rest

-- `if test: raise e`
abbrev pub raise_if : Bool → Exn → Result (Unit {0})
raise_if true e = err e
raise_if false e = ok tt

-- A value that is None raises.
abbrev pub or_raise {ℓ} : {A : Type ℓ} → Option A → Exn → Result A
or_raise Option.none e = err e
or_raise (Option.some a) e = ok a

pub or_raise-ok {ℓ} :
    {A : Type ℓ} (o : Option A) (e : Exn) {a : A} → or_raise o e ≡ ok a → o ≡ Option.some a
or_raise-ok Option.none e h = absurd (ground arith)
or_raise-ok (Option.some b) e h = ground arith

pub raise_if-ok : (b : Bool) (e : Exn) {u : Unit {0}} → raise_if b e ≡ ok u → b ≡ false
raise_if-ok true e h = absurd (ground arith)
raise_if-ok false e h = refl

pub ok-injective {ℓ} : {A : Type ℓ} {a b : A} → ok a ≡ ok b → a ≡ b
ok-injective h = cc

pub err-injective {ℓ} : {A : Type ℓ} {e x : Exn} → ◌≡◌ {A = Result A} (err e) (err x) → e ≡ x
err-injective h = cc
