-- ===== src/Storage/RecoveryActions.antt =====
-- app/storage/recovery_actions.py: the contract of a recovery-action journal, and the in-memory
-- journal. `uuid4()` and the clock are arguments.
pub mod Finalize
pub mod Lifecycle
pub mod WellFormed
use github_webhook_monitor.Prelude.{
  ℕ, ℤ, String, not, ◌||◌, Option, none, some, List, [], ◌∷◌, find, ◌==◌, if◌then◌else◌, leb,
}
use github_webhook_monitor.Errors.{
  Result, ok, err, value_error, recovery_action_not_found, invalid_recovery_action_transition,
}
use github_webhook_monitor.Domain.Datetime.{Datetime, Uuid}
use github_webhook_monitor.Domain.Deliveries.{DeliveryAttempt}
use github_webhook_monitor.Domain.Management.{ManagementPrincipal, ManagementAuthorization}
use github_webhook_monitor.Domain.RecoveryActions.{
  RecoveryAction, type_github_redelivery, state_initiated, is_terminal,
}
use github_webhook_monitor.Storage.Deque.{Deque, bounded, appendleft}
use github_webhook_monitor.Storage.Keyset.{Key, page}

-- The keyword arguments of `create_initiated_github_redelivery`, and the id that it draws.
pub record Creation : Type 0 where
  pub action_id : Uuid
  pub attempt : DeliveryAttempt
  pub repository : String
  pub github_delivery_id : ℤ
  pub requested_at : Datetime
  pub principal : ManagementPrincipal
  pub authorization : Option ManagementAuthorization

-- The keyword arguments of `finalize`.
pub record Finalization : Type 0 where
  pub action_id : Uuid
  pub state : String
  pub completed_at : Datetime
  pub upstream_status_code : Option ℕ
  pub failure_category : Option String

-- The protocol `RecoveryActionStore`. Its methods may raise; the queries leave the journal alone.
pub record RecoveryActionStore : Type 1 where
  pub State : Type 0
  pub create_initiated_github_redelivery : Creation → State → Result RecoveryAction × State
  pub finalize : Finalization → State → Result RecoveryAction × State
  pub get : Uuid → State → Result (Option RecoveryAction)
  pub list_recent : ℕ → Option Key → State → Result (List RecoveryAction)

pub record InMemoryRecoveryActionStore : Type 0 where
  pub actions : Deque RecoveryAction

unfoldable pub in_memory_recovery_action_store : ℕ → Result InMemoryRecoveryActionStore
unfolding bounded
in_memory_recovery_action_store max_actions =
    if leb max_actions 0 then err value_error else ok (record { actions = bounded max_actions })

abbrev pub capability_of : Option ManagementAuthorization → Option String
capability_of none = none
capability_of (some authorization) = some authorization.capability

abbrev pub scope_of : Option ManagementAuthorization → Option String
scope_of none = none
scope_of (some authorization) = authorization.matched_scope

unfoldable pub initiated_action : Creation → RecoveryAction
initiated_action c = record {
  action_id = c.action_id;
  action_type = type_github_redelivery;
  requested_at = c.requested_at;
  completed_at = none;
  attempt_id = c.attempt.attempt_id;
  delivery_guid = c.attempt.delivery_identity.delivery_guid;
  hook_id = c.attempt.delivery_identity.hook_id;
  repository = c.repository;
  github_delivery_id = c.github_delivery_id;
  authentication_method = c.principal.authentication_method;
  principal_issuer = c.principal.issuer;
  principal_subject = c.principal.subject;
  principal_client_id = c.principal.client_id;
  authorization_capability = capability_of c.authorization;
  authorization_scope = scope_of c.authorization;
  state = state_initiated;
  upstream_status_code = none;
  failure_category = none;
}

unfoldable pub create_initiated_github_redelivery :
    Creation → InMemoryRecoveryActionStore → RecoveryAction × InMemoryRecoveryActionStore
unfolding appendleft initiated_action
create_initiated_github_redelivery c store =
    let action = initiated_action c in
    (action, record store { actions = appendleft action store.actions })

-- the action that `finalize` writes back
unfoldable pub finalized : Finalization → RecoveryAction → RecoveryAction
finalized f action = record action {
  state = f.state;
  completed_at = some f.completed_at;
  upstream_status_code = f.upstream_status_code;
  failure_category = f.failure_category;
}

-- the loop of `finalize`: the finalized action, and the actions with it written in its place
unfoldable pub finalize_loop :
    Finalization → List RecoveryAction → Result (RecoveryAction × List RecoveryAction)
finalize_loop f [] = err recovery_action_not_found
finalize_loop f (action ∷ actions) =
    let rest = finalize_loop f actions in
    if not (action.action_id == f.action_id)
    then elim rest [ ok (done, others) ↦ ok (done, action ∷ others) | err e ↦ err e ]
    else if is_terminal action.state || not (is_terminal f.state)
    then err invalid_recovery_action_transition
    else ok (finalized f action, finalized f action ∷ actions)

abbrev pub write_back :
    InMemoryRecoveryActionStore
    → Result (RecoveryAction × List RecoveryAction)
    → Result RecoveryAction × InMemoryRecoveryActionStore
write_back store (ok (done, actions)) =
    (ok done, record store { actions = record (store.actions) { items = actions } })
write_back store (err e) = (err e, store)

unfoldable pub finalize :
    Finalization → InMemoryRecoveryActionStore → Result RecoveryAction × InMemoryRecoveryActionStore
unfolding finalize_loop
finalize f store = write_back store (finalize_loop f store.actions.items)

unfoldable pub get : Uuid → InMemoryRecoveryActionStore → Option RecoveryAction
get action_id store = find (λ action. action.action_id == action_id) store.actions.items

-- `(action.requested_at, action.action_id)`, also the fields of a `RecoveryActionKeyset`
abbrev pub action_key : RecoveryAction → Key
action_key action = (action.requested_at.instant, action.action_id)

unfoldable pub list_recent : ℕ → Option Key → InMemoryRecoveryActionStore → List RecoveryAction
list_recent limit after store = page action_key limit after store.actions.items

abbrev pub memory_recovery_action_store : RecoveryActionStore
memory_recovery_action_store = record {
  State = InMemoryRecoveryActionStore;
  create_initiated_github_redelivery = λ c store.
      let (action, store') = create_initiated_github_redelivery c store in (ok action, store');
  finalize = finalize;
  get = λ action_id store. ok (get action_id store);
  list_recent = λ limit after store. ok (list_recent limit after store);
}
