-- ===== src/Persistence/Schema.antt =====
-- The tables of app/persistence/schema.py: a record for the columns of a row, and a test for the
-- CHECK constraints of a table. `id` is drawn by the database.
use github_webhook_monitor.Prelude.{
  negsuc, ◌^◌, ltb, ℕ, ℤ, pos, String, Bool, true, false, not, ◌&&◌, ◌||◌, Option, none, some, [],
  ◌∷◌, leb, ltb_ℤ, ◌==◌, str_eq, str_in, all_chars, is_none, is_some, str_length,
}
use github_webhook_monitor.Domain.Datetime.{Datetime, Uuid}
use github_webhook_monitor.Domain.RecoveryActions.{
  type_github_redelivery, state_initiated, terminal_states, is_terminal,
}
use github_webhook_monitor.Domain.Management.{
  authentication_method_management_bearer, authentication_method_oidc_jwt,
}

-- `length(btrim(value)) > 0`: some character is not a space.
unfoldable pub has_text : String → Bool
has_text value = not (all_chars (λ c. c == 32) value)

-- `value > 0`
abbrev pub is_positive : ℤ → Bool
is_positive n = ltb_ℤ (pos 0) n

-- A number that a BigInteger column can hold; PostgreSQL refuses any other.
unfoldable pub is_big_integer : ℤ → Bool
is_big_integer (pos n) = ltb n (2 ^ 63)
is_big_integer (negsuc n) = ltb n (2 ^ 63)

-- The table `github_deliveries`.
pub record DeliveryRow : Type 0 where
  pub id : ℕ
  pub delivery_guid : String
  pub hook_id : ℤ

unfoldable pub delivery_checks : String → ℤ → Bool
unfolding has_text
delivery_checks delivery_guid hook_id = has_text delivery_guid && is_positive hook_id

-- The row passes the constraints, and its numbers are in range.
unfoldable pub is_delivery_storable : String → ℤ → Bool
unfolding delivery_checks is_big_integer
is_delivery_storable delivery_guid hook_id =
    is_big_integer hook_id && delivery_checks delivery_guid hook_id

-- A column that may be NULL.
abbrev pub all_big : Option ℤ → Bool
all_big none = true
all_big (some n) = is_big_integer n

-- The table `delivery_attempts`.
pub record AttemptColumns : Type 0 where
  pub attempt_id : Uuid
  pub github_delivery_id : ℕ
  pub received_at : Datetime
  pub payload_sha256 : String
  pub event_type : String
  pub action : Option String
  pub repository : Option String
  pub sender : Option String
  pub installation_target_id : Option ℤ
  pub installation_target_type : Option String

unfoldable pub is_target_pair : Option ℤ → Option String → Bool
unfolding has_text
is_target_pair none none = true
is_target_pair (some target_id) (some target_type) = is_positive target_id && has_text target_type
is_target_pair target_id target_type = false

unfoldable pub attempt_checks : AttemptColumns → Bool
unfolding is_target_pair
attempt_checks a =
    str_length a.payload_sha256 == 64
    && is_target_pair a.installation_target_id a.installation_target_type

unfoldable pub is_attempt_storable : AttemptColumns → Bool
unfolding attempt_checks is_big_integer
is_attempt_storable a =
    all_big (some (pos a.github_delivery_id))
    && all_big a.installation_target_id
    && attempt_checks a

-- The table `recovery_actions`.
pub record ActionColumns : Type 0 where
  pub action_id : Uuid
  pub action_type : String
  pub requested_at : Datetime
  pub completed_at : Option Datetime
  pub attempt_id : Uuid
  pub delivery_guid : String
  pub hook_id : ℤ
  pub repository : String
  pub github_delivery_id : ℤ
  pub authentication_method : String
  pub principal_issuer : Option String
  pub principal_subject : Option String
  pub principal_client_id : Option String
  pub authorization_capability : Option String
  pub authorization_scope : Option String
  pub state : String
  pub upstream_status_code : Option ℕ
  pub failure_category : Option String

pub record ActionRow : Type 0 where
  pub id : ℕ
  pub columns : ActionColumns

unfoldable pub is_action_state : String → Bool
is_action_state state = str_in state (state_initiated ∷ terminal_states)

unfoldable pub is_status_code : Option ℕ → Bool
is_status_code none = true
is_status_code (some code) = leb 100 code && leb code 599

-- The constraint `ck_recovery_actions_state_completion`.
unfoldable pub is_complete : ActionColumns → Bool
is_complete a =
    (str_eq a.state state_initiated
      && is_none a.completed_at
      && is_none a.upstream_status_code
      && is_none a.failure_category)
    || (is_terminal a.state && is_some a.completed_at)

unfoldable pub action_checks : ActionColumns → Bool
action_checks a =
    str_eq a.action_type type_github_redelivery
    && is_action_state a.state
    && str_in a.authentication_method
        (authentication_method_management_bearer ∷ authentication_method_oidc_jwt ∷ [])
    && has_text a.delivery_guid
    && is_positive a.hook_id
    && has_text a.repository
    && is_positive a.github_delivery_id
    && is_status_code a.upstream_status_code
    && is_complete a

abbrev pub big_code : Option ℕ → Bool
big_code none = true
big_code (some code) = is_big_integer (pos code)

-- The numbers of the row are in the range of their BigInteger columns.
unfoldable pub action_numbers : ActionColumns → Bool
unfolding is_big_integer
action_numbers a =
    is_big_integer a.hook_id
    && is_big_integer a.github_delivery_id
    && big_code a.upstream_status_code

unfoldable pub is_action_storable : ActionColumns → Bool
unfolding action_numbers action_checks
is_action_storable a = action_numbers a && action_checks a
