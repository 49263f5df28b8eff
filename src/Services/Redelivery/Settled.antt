-- ===== src/Services/Redelivery/Settled.antt =====
-- The in-memory journal tells how each submission ended.
use mathlib.Core.Option.{some-injective}
use github_webhook_monitor.Prelude.{
  ℕ, suc, ℤ, String, true, false, Option, none, some, subst, ◌≡◌, refl, sym, ap, ◌∙◌, ==_iff, arith,
}
use github_webhook_monitor.Errors.{
  Result, ok, err, recovery_action_not_found, redelivery_outcome_unknown, upstream_protocol,
  upstream_unavailable,
}
use github_webhook_monitor.Domain.Datetime.{Uuid}
use github_webhook_monitor.Domain.Deliveries.{DeliveryAttempt}
use github_webhook_monitor.Domain.Management.{ManagementAuthorization}
use github_webhook_monitor.Domain.RecoveryActions.{RecoveryAction, is_terminal}
use github_webhook_monitor.Storage.RecoveryActions.{
  Creation, Finalization, InMemoryRecoveryActionStore, memory_recovery_action_store,
  initiated_action, create_initiated_github_redelivery, finalized, finalize, get,
}
use github_webhook_monitor.Storage.RecoveryActions.Finalize.{finalize-eq-outcome, get-finalize}
use github_webhook_monitor.Services.Exec.{Exec, continue, pure}
use github_webhook_monitor.Services.Reconciliation.{ListDeliveries}
use github_webhook_monitor.Services.Redelivery.{
  settle_as, reported, Draws, RequestRedelivery, GitHubRedeliveryResult, settlement, journal_error,
  creation, accepted_result, write_initiated, finalize_action, settle, submit,
}

-- A journal with room for at least one action shows a new action at once.
pub get-create_self :
    (n : ℕ) (c : Creation) (j : InMemoryRecoveryActionStore)
    → j.actions.maxlen ≡ some (suc n)
    → get c.action_id (create_initiated_github_redelivery c j).1 ≡ some (initiated_action c)
unfolding get create_initiated_github_redelivery
get-create_self n c j cap = rw (cap, (==_iff c.action_id c.action_id).1 refl)

abbrev Settles : Draws → Finalization → Type 0
Settles draws f = (is_terminal f.state ≡ true) × (f.action_id ≡ draws.action_id)

settled_by :
    (draws : Draws) (f g : Finalization)
    → ◌≡◌ {A = Option Finalization} (some g) (some f)
    → Settles draws g
    → Settles draws f
settled_by draws f g h s = subst (Settles draws) (some-injective g f h) s

-- The states that a submission leaves an action in are final.
settlement-Settles :
    (draws : Draws) (answer : Result (Unit {0})) (f : Finalization)
    → settlement draws answer ≡ some f
    → Settles draws f
unfolding settlement is_terminal
settlement-Settles draws (ok _) f h = settled_by draws f _ h (refl, refl)
settlement-Settles draws (err (redelivery_outcome_unknown _ _)) f h =
    settled_by draws f _ h (refl, refl)
settlement-Settles draws (err (upstream_protocol _ _)) f h = settled_by draws f _ h (refl, refl)
settlement-Settles draws (err (upstream_unavailable _ _)) f h = settled_by draws f _ h (refl, refl)
settlement-Settles draws (err x) f h = cc

module _ (E : Type 0) (f : Finalization) (e : E) (j : InMemoryRecoveryActionStore) where
  finalize_action-found :
      (a : RecoveryAction)
      → get f.action_id j ≡ some a
      → is_terminal a.state ≡ false
      → is_terminal f.state ≡ true
      → finalize_action E memory_recovery_action_store f (e, j) ≡ (ok tt, (e, (finalize f j).1))
  unfolding finalize_action
  finalize_action-found a g p t = ground (arith, finalize-eq-outcome f j)

  finalize_action-missing :
      get f.action_id j ≡ none
      → finalize_action E memory_recovery_action_store f (e, j)
        ≡ (err recovery_action_not_found, (e, (finalize f j).1))
  unfolding finalize_action
  finalize_action-missing g = ground (arith, finalize-eq-outcome f j)

initiated-pending : (c : Creation) → is_terminal (initiated_action c).state ≡ false
unfolding is_terminal initiated_action
initiated-pending c = refl

module _ (E : Type 0) (draws : Draws) (answer : Result (Unit {0})) (f : Finalization)
    (s : settlement draws answer ≡ some f) (result : GitHubRedeliveryResult) (e : E)
    (j : InMemoryRecoveryActionStore) where
  abbrev settled : Result GitHubRedeliveryResult × (E × InMemoryRecoveryActionStore)
  settled = settle E memory_recovery_action_store draws answer result (e, j)

  abbrev written : Result (Unit {0}) × (E × InMemoryRecoveryActionStore)
  written = finalize_action E memory_recovery_action_store f (e, j)

  settle-written : settled ≡ continue written.0 written.1 (λ _. pure (reported answer result))
  unfolding settle_as
  settle-written = ap (λ o. settle_as E memory_recovery_action_store o answer result (e, j)) s

  pub id_of_f : f.action_id ≡ draws.action_id
  id_of_f = (settlement-Settles draws answer f s).1

  pub final_f : is_terminal f.state ≡ true
  final_f = (settlement-Settles draws answer f s).0

  settle-found :
      (a : RecoveryAction)
      → get draws.action_id j ≡ some a
      → is_terminal a.state ≡ false
      → settled ≡ (reported answer result, (e, (finalize f j).1))
  settle-found a g p =
      settle-written
      ∙ ap (λ w. continue (w.0) (w.1) (λ _. pure (reported answer result)))
          (finalize_action-found E f e j a (subst (λ i. get i j ≡ some a) (sym id_of_f) g) p
            final_f)

  get-finalized :
      (a : RecoveryAction)
      → get draws.action_id j ≡ some a
      → is_terminal a.state ≡ false
      → get draws.action_id (finalize f j).1 ≡ some (finalized f a)
  get-finalized a g p = ground (arith, get-finalize f j draws.action_id, id_of_f, final_f)

  settle-missing :
      get draws.action_id j ≡ none
      → settled ≡ (err recovery_action_not_found, (e, (finalize f j).1))
  settle-missing g =
      settle-written
      ∙ ap (λ w. continue (w.0) (w.1) (λ _. pure (reported answer result)))
          (finalize_action-missing E f e j (subst (λ i. get i j ≡ none) (sym id_of_f) g))

module _ (E : Type 0) (decode : String → Uuid → Result String)
    (encode : Uuid → Option String → String)
    (list_deliveries : ListDeliveries (E × InMemoryRecoveryActionStore))
    (request : RequestRedelivery (E × InMemoryRecoveryActionStore)) (draws : Draws)
    (attempt : DeliveryAttempt) (github_delivery_id : ℤ) (authorization : ManagementAuthorization)
    (parts : String × String) where
  abbrev submitted : Exec (E × InMemoryRecoveryActionStore) GitHubRedeliveryResult
  submitted =
      submit E memory_recovery_action_store decode encode list_deliveries request draws attempt
        github_delivery_id authorization parts

  abbrev result : GitHubRedeliveryResult
  result =
      accepted_result
        (initiated_action (creation draws attempt parts github_delivery_id authorization)) attempt
        github_delivery_id

  abbrev entry : Creation
  entry = creation draws attempt parts github_delivery_id authorization

  abbrev answer_from :
      InMemoryRecoveryActionStore → E → Result (Unit {0}) × (E × InMemoryRecoveryActionStore)
  answer_from j e =
      request (parts.0) (parts.1) attempt.delivery_identity.hook_id github_delivery_id (e, j)

  submit-settle :
      (e e' : E) (j j' : InMemoryRecoveryActionStore) (answer : Result (Unit {0}))
      → answer_from (create_initiated_github_redelivery entry j).1 e ≡ (answer, (e', j'))
      → submitted (e, j) ≡ settle E memory_recovery_action_store draws answer result (e', j')
  unfolding submit write_initiated create_initiated_github_redelivery journal_error
  submit-settle e e' j j' answer h =
      ap (λ r. settle E memory_recovery_action_store draws r.0 result r.1) h

  -- If GitHub's answer to a submitted request is one that the service knows and the in-memory
  -- journal still shows the new action when it comes, the caller gets the answer, and the journal
  -- shows the action finished with the state that belongs to the answer.
  pub submit-settled :
      (e e' : E) (j j' : InMemoryRecoveryActionStore) (answer : Result (Unit {0}))
      → (f : Finalization)
      → answer_from (create_initiated_github_redelivery entry j).1 e ≡ (answer, (e', j'))
      → settlement draws answer ≡ some f
      → get draws.action_id j' ≡ some (initiated_action entry)
      → ((submitted (e, j)).0 ≡ reported answer result)
        × (get draws.action_id ((submitted (e, j)).1.1)
            ≡ some (finalized f (initiated_action entry)))
  submit-settled e e' j j' answer f h s g = (
    ap (λ r. r.0)
        (submit-settle e e' j j' answer h
          ∙ settle-found E draws answer f s result e' j' _ g (initiated-pending entry)),
    ap (λ r. get draws.action_id (r.1.1))
          (submit-settle e e' j j' answer h
            ∙ settle-found E draws answer f s result e' j' _ g (initiated-pending entry))
        ∙ get-finalized E draws answer f s result e' j' _ g (initiated-pending entry),
  )

  -- If the in-memory journal no longer shows the new action when an answer comes that the service
  -- knows, the caller gets the not-found error of the journal, also when GitHub has accepted.
  pub submit-evicted :
      (e e' : E) (j j' : InMemoryRecoveryActionStore) (answer : Result (Unit {0}))
      → (f : Finalization)
      → answer_from (create_initiated_github_redelivery entry j).1 e ≡ (answer, (e', j'))
      → settlement draws answer ≡ some f
      → get draws.action_id j' ≡ none
      → (submitted (e, j)).0 ≡ err recovery_action_not_found
  submit-evicted e e' j j' answer f h s g =
      ap (λ r. r.0)
        (submit-settle e e' j j' answer h ∙ settle-missing E draws answer f s result e' j' g)
