-- ===== src/Persistence/Actions/Checked.antt =====
-- What the redelivery service writes passes the constraints of the table `recovery_actions`.
use mathlib.Core.Option.{some-injective}
use github_webhook_monitor.Prelude.{
  ℕ, ℤ, pos, String, Bool, ◌&&◌, Option, none, true, false, ◌==◌, ==_iff, ◌≡◌, refl, ◌∙◌, sym,
  arith, Bool-cases, inl, inr, some, [], ◌∷◌, ◌<>◌, all_chars, is_blank, strip, lstrip, rstrip,
  is_space, ltb_ℤ, leb_ℤ, str_in, str_eq, code,
}
use github_webhook_monitor.Errors.{ok, value_error, raise_if, raise_if-ok, bind-ok}
use github_webhook_monitor.Domain.Deliveries.{
  DeliveryAttempt, GitHubDeliveryIdentity, github_delivery_identity,
}
use github_webhook_monitor.Domain.Management.{
  ManagementAuthorization, authentication_method_management_bearer, authentication_method_oidc_jwt,
}
use github_webhook_monitor.Domain.RecoveryActions.{is_terminal, state_initiated}
use github_webhook_monitor.Storage.RecoveryActions.{Finalization}
use github_webhook_monitor.Services.Redelivery.{Draws, creation, settlement}
use github_webhook_monitor.Integrations.GitHub.{Reply, response, fault, Fault}
use github_webhook_monitor.Integrations.GitHub.Client.{redelivery_result}
use github_webhook_monitor.Integrations.GitHub.Outcome.{
  state_of, answered_status, redelivery_result-Records,
}
use github_webhook_monitor.Persistence.Schema.{
  big_code, is_action_storable, action_numbers, is_big_integer, ActionColumns, has_text,
  is_action_state, is_status_code, is_complete, action_checks,
}
use github_webhook_monitor.Persistence.Actions.{Option, Bool, action_values, finalized_columns}

space_is_space : (c : ℕ) → (c == 32) ≡ true → is_space c ≡ true
unfolding is_space
space_is_space c h = rw ((==_iff c 32).0 h) refl

lstrip-spaces : (s : String) → all_chars (λ c. c == 32) s ≡ true → lstrip s ≡ String.[]
unfolding lstrip all_chars is_space
lstrip-spaces String.[] h = refl
lstrip-spaces (String.◌∷◌ c s) h =
    let space : is_space (code c) ≡ true = space_is_space (code c) (ground (arith, h)) in
    rw space (lstrip-spaces s (ground (arith, h)))

-- A text that is not blank for Python has a character that is no space.
has_text_if_not_blank : (s : String) → is_blank s ≡ false → has_text s ≡ true
unfolding has_text is_blank strip rstrip
has_text_if_not_blank s h = elim (Bool-cases (all_chars (λ c. c == 32) s)) [
  | inl spaces ↦ absurd (ground (arith, rw (lstrip-spaces s spaces) at h))
  | inr other ↦ rw other refl
]

has_text_slash : (owner name : String) → has_text (owner <> ("/" <> name)) ≡ true
unfolding has_text all_chars
has_text_slash String.[] name = refl
has_text_slash (String.◌∷◌ c owner) name = ground (arith, has_text_slash owner name)

state_of-IsTerminal : (reply : Reply) → is_terminal (state_of reply) ≡ true
unfolding is_terminal
state_of-IsTerminal (response r) = elim (Bool-cases (r.status_code == 202)) [
  | inl a ↦ rw a refl
  | inr n ↦ rw n refl
]
state_of-IsTerminal (fault Fault.connect_error) = refl
state_of-IsTerminal (fault Fault.connect_timeout) = refl
state_of-IsTerminal (fault Fault.timeout) = refl
state_of-IsTerminal (fault Fault.network_error) = refl
state_of-IsTerminal (fault Fault.request_error) = refl

identity-checks :
    (guid : String) (hook_id : ℤ) {identity : GitHubDeliveryIdentity}
    → github_delivery_identity guid hook_id ≡ ok identity
    → (has_text guid ≡ true) × (ltb_ℤ (pos 0) hook_id ≡ true)
unfolding github_delivery_identity
identity-checks guid hook_id h =
    let (u, e, h1) = bind-ok (raise_if (is_blank guid) value_error) _ h in
    let (v, g, h2) = bind-ok (raise_if (leb_ℤ hook_id (pos 0)) value_error) _ h1 in
    let positive = raise_if-ok (leb_ℤ hook_id (pos 0)) _ g in
    (has_text_if_not_blank guid (raise_if-ok _ _ e), ground (arith, positive))

terminal_state-checks : (state : String) → is_terminal state ≡ true → is_action_state state ≡ true
unfolding is_action_state is_terminal
terminal_state-checks state h = elim (Bool-cases (str_eq state state_initiated)) [
  | inl i ↦ rw i refl
  | inr n ↦ rw n h
]

finalized-is_complete :
    (f : Finalization) (columns : ActionColumns)
    → is_terminal f.state ≡ true
    → is_complete (finalized_columns f columns) ≡ true
unfolding is_complete finalized_columns
finalized-is_complete f columns final = ground (arith, final)

finalized-checks :
    (f : Finalization) (columns : ActionColumns)
    → is_terminal f.state ≡ true
    → is_status_code f.upstream_status_code ≡ true
    → action_checks columns ≡ true
    → action_checks (finalized_columns f columns) ≡ true
unfolding action_checks finalized_columns
finalized-checks f columns final status h =
    ground
      (arith, h, status, terminal_state-checks f.state final, finalized-is_complete f columns final)

created-checks :
    (draws : Draws) (attempt : DeliveryAttempt) (parts : String × String)
    → (github_delivery_id : ℤ) (authorization : ManagementAuthorization)
    → has_text attempt.delivery_identity.delivery_guid ≡ true
    → ltb_ℤ (pos 0) attempt.delivery_identity.hook_id ≡ true
    → ltb_ℤ (pos 0) github_delivery_id ≡ true
    → str_in authorization.principal.authentication_method
        (authentication_method_management_bearer ∷ authentication_method_oidc_jwt ∷ [])
      ≡ true
    → action_checks (action_values (creation draws attempt parts github_delivery_id authorization))
      ≡ true
unfolding action_checks action_values creation is_action_state is_status_code is_complete
created-checks draws attempt parts id authorization text hook positive method =
    rw (text, hook, has_text_slash (parts.0) (parts.1), positive, method) refl

created-numbers :
    (draws : Draws) (attempt : DeliveryAttempt) (parts : String × String)
    → (github_delivery_id : ℤ) (authorization : ManagementAuthorization)
    → action_numbers (action_values (creation draws attempt parts github_delivery_id authorization))
      ≡ (is_big_integer attempt.delivery_identity.hook_id && is_big_integer github_delivery_id)
unfolding action_numbers action_values creation
created-numbers draws attempt parts id authorization = ground arith

is_status_code-big : (code : Option ℕ) → is_status_code code ≡ true → big_code code ≡ true
unfolding is_status_code is_big_integer
is_status_code-big none h = refl
is_status_code-big (some n) h = ground (arith, h)

finalized-numbers :
    (f : Finalization) (columns : ActionColumns)
    → is_status_code f.upstream_status_code ≡ true
    → action_numbers (finalized_columns f columns)
      ≡ (is_big_integer columns.hook_id && is_big_integer columns.github_delivery_id)
unfolding action_numbers finalized_columns
finalized-numbers f columns h = rw (is_status_code-big f.upstream_status_code h) (ground arith)

-- Whether the table stores a row, its CHECK constraints passed.
storable-numbers :
    (columns : ActionColumns) (numbers : Bool)
    → action_checks columns ≡ true
    → action_numbers columns ≡ numbers
    → is_action_storable columns ≡ numbers
unfolding is_action_storable
storable-numbers columns numbers h e = ground (arith, h, e)

-- For an identity that its constructor accepts, a positive delivery id and a principal of one of the
-- two methods, the row of a redelivery that the service submits passes the table's constraints and
-- the ranges of its columns exactly if the hook id and the delivery id are within 64 bits with a
-- sign; and so does the row with the outcome of a reply without a status code or with one from 100
-- to 599.
pub submitted-checks :
    (draws : Draws) (attempt : DeliveryAttempt) (parts : String × String)
    → (github_delivery_id : ℤ) (authorization : ManagementAuthorization) (reply : Reply)
    → (f : Finalization) (identity : GitHubDeliveryIdentity)
    → github_delivery_identity attempt.delivery_identity.delivery_guid
        attempt.delivery_identity.hook_id
      ≡ ok identity
    → ltb_ℤ (pos 0) github_delivery_id ≡ true
    → str_in authorization.principal.authentication_method
        (authentication_method_management_bearer ∷ authentication_method_oidc_jwt ∷ [])
      ≡ true
    → is_status_code (answered_status reply) ≡ true
    → settlement draws (redelivery_result reply) ≡ some f
    → (is_action_storable
          (action_values (creation draws attempt parts github_delivery_id authorization))
        ≡ (is_big_integer attempt.delivery_identity.hook_id && is_big_integer github_delivery_id))
      × (is_action_storable (
            finalized_columns f
              (action_values (creation draws attempt parts github_delivery_id authorization)))
          ≡ (is_big_integer attempt.delivery_identity.hook_id && is_big_integer github_delivery_id))
unfolding action_values creation
submitted-checks draws attempt parts id authorization reply f identity valid positive method status
      e =
    let (text, hook) = identity-checks _ _ valid in
    let values = action_values (creation draws attempt parts id authorization) in
    let created = created-checks draws attempt parts id authorization text hook positive method in
    let (g, settled, state, code_kept) = redelivery_result-Records draws reply in
    let same = some-injective g f (sym settled ∙ e) in
    let final : is_terminal f.state ≡ true = rw (sym same, state) (state_of-IsTerminal reply) in
    let numbered : is_status_code f.upstream_status_code ≡ true = rw (sym same, code_kept) status in
    (
      storable-numbers values _ created (created-numbers draws attempt parts id authorization),
      storable-numbers (finalized_columns f values) _
          (finalized-checks f values final numbered created) (finalized-numbers f values numbered),
    )
