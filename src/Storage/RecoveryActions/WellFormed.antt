-- ===== src/Storage/RecoveryActions/WellFormed.antt =====
-- The journal never holds an action that the schema's constraint on completion would refuse.
use github_webhook_monitor.Prelude.{
  ◌==◌, ℕ, ◌≡◌, refl, Option, none, some, List, [], ◌∷◌, All, All-take, Bool-cases, inl, inr, true,
}
use github_webhook_monitor.Errors.{ok, err}
use github_webhook_monitor.Domain.Datetime.{Uuid, Datetime}
use github_webhook_monitor.Domain.RecoveryActions.{RecoveryAction, is_terminal, state_initiated}
use github_webhook_monitor.Storage.Deque.{truncate}
use github_webhook_monitor.Storage.RecoveryActions.{
  Creation, Finalization, InMemoryRecoveryActionStore, initiated_action,
  create_initiated_github_redelivery, finalized, finalize_loop, finalize,
}
use github_webhook_monitor.Storage.RecoveryActions.Finalize.{Loop, written, write_back-written}
use github_webhook_monitor.Storage.RecoveryActions.Lifecycle.{Step, create, finish, Run, here, next}

-- The constraint `ck_recovery_actions_state_completion` of the schema.
pub data IsWellFormed (a : RecoveryAction) : Type 0 where
  is_initiated :
      a.state ≡ state_initiated
      → a.completed_at ≡ none
      → a.upstream_status_code ≡ none
      → a.failure_category ≡ none
      → IsWellFormed a
  is_finished :
      (t : Datetime) → is_terminal a.state ≡ true → a.completed_at ≡ some t → IsWellFormed a

abbrev pub AllWellFormed : InMemoryRecoveryActionStore → Type 0
AllWellFormed s = All IsWellFormed s.actions.items

after_head :
    (a : RecoveryAction) (xs : List RecoveryAction) (rest : Loop)
    → All IsWellFormed (a ∷ xs)
    → All IsWellFormed (written xs rest)
    → All IsWellFormed
        (written (a ∷ xs) (elim rest [ ok (done, others) ↦ ok (done, a ∷ others) | err e ↦ err e ]))
after_head a xs (ok (done, others)) h k = (h.0, k)
after_head a xs (err e) h k = h

finalize_loop-AllWellFormed :
    (f : Finalization) (xs : List RecoveryAction)
    → All IsWellFormed xs
    → All IsWellFormed (written xs (finalize_loop f xs))
unfolding finalize_loop finalized
finalize_loop-AllWellFormed f [] h = tt
finalize_loop-AllWellFormed f (a ∷ xs) h =
    let rest = finalize_loop-AllWellFormed f xs h.1 in
    elim (Bool-cases (a.action_id == f.action_id)) [
      | inr ne ↦ rw ne (after_head a xs (finalize_loop f xs) h rest)
      | inl e ↦ elim (Bool-cases (is_terminal a.state)) [
        | inl done ↦ rw (e, done) h
        | inr pending ↦ elim (Bool-cases (is_terminal f.state)) [
          | inr other ↦ rw (e, pending, other) h
          | inl final ↦ rw (e, pending, final) (is_finished f.completed_at final refl, h.1)
        ]
      ]
    ]

initiated_action-IsWellFormed : (c : Creation) → IsWellFormed (initiated_action c)
unfolding initiated_action
initiated_action-IsWellFormed c = is_initiated refl refl refl refl

Step-AllWellFormed :
    {i : Uuid} {s t : InMemoryRecoveryActionStore} → Step i s t → AllWellFormed s → AllWellFormed t
unfolding create_initiated_github_redelivery finalize
Step-AllWellFormed (create c s other) h = cut s.actions.maxlen
  where
    cut : (m : Option ℕ) → All IsWellFormed (truncate m (initiated_action c ∷ s.actions.items))
    cut none = (initiated_action-IsWellFormed c, h)
    cut (some n) =
        All-take IsWellFormed n (initiated_action c ∷ s.actions.items)
          (initiated_action-IsWellFormed c, h)
Step-AllWellFormed (finish f s) h =
    rw (write_back-written s (finalize_loop f s.actions.items))
      (finalize_loop-AllWellFormed f s.actions.items h)

-- Whatever is called on a journal where that was so before, every action in it is either initiated, with no completion
-- time, status code or failure category, or in a final state with a completion time.
pub Run-AllWellFormed :
    {i : Uuid} {s t : InMemoryRecoveryActionStore} → AllWellFormed s → Run i s t → AllWellFormed t
Run-AllWellFormed h here = h
Run-AllWellFormed h (next r st) = Step-AllWellFormed st (Run-AllWellFormed h r)
