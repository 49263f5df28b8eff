-- ===== src/Domain/RecoveryActions.antt =====
-- app/domain/recovery_actions.py
use github_webhook_monitor.Prelude.{ℕ, ℤ, String, Bool, Option, List, [], ◌∷◌, str_in}
use github_webhook_monitor.Domain.Datetime.{Datetime, Uuid}

abbrev pub type_github_redelivery : String
type_github_redelivery = "github_repository_webhook_redelivery"

abbrev pub state_initiated : String
state_initiated = "initiated"

abbrev pub state_accepted : String
state_accepted = "accepted"

abbrev pub state_failed : String
state_failed = "failed"

abbrev pub state_outcome_unknown : String
state_outcome_unknown = "outcome_unknown"

abbrev pub terminal_states : List String
terminal_states = state_accepted ∷ state_failed ∷ state_outcome_unknown ∷ []

-- `state in RECOVERY_ACTION_TERMINAL_STATES`
unfoldable pub is_terminal : String → Bool
is_terminal state = str_in state terminal_states

pub record RecoveryAction : Type 0 where
  pub action_id : Uuid
  pub action_type : String
  pub requested_at : Datetime
  pub completed_at : Option Datetime
  pub attempt_id : Uuid
  pub delivery_guid : String
  pub hook_id : ℤ
  pub repository : String
  pub github_delivery_id : ℤ
  pub authentication_method : String
  pub principal_issuer : Option String
  pub principal_subject : Option String
  pub principal_client_id : Option String
  pub authorization_capability : Option String
  pub authorization_scope : Option String
  pub state : String
  pub upstream_status_code : Option ℕ
  pub failure_category : Option String
