-- ===== src/Storage/RecoveryActions/Finalize.antt =====
-- What `finalize` returns and writes, in terms of what `get` shows.
use github_webhook_monitor.Prelude.{
  ◌≡◌, refl, ap, ◌∙◌, not, ◌||◌, Option, none, some, List, [], ◌∷◌, find, ◌==◌, if◌then◌else◌,
  arith,
}
use github_webhook_monitor.Errors.{
  Result, ok, err, recovery_action_not_found, invalid_recovery_action_transition,
}
use github_webhook_monitor.Domain.Datetime.{Uuid}
use github_webhook_monitor.Domain.RecoveryActions.{RecoveryAction, is_terminal}
use github_webhook_monitor.Storage.RecoveryActions.{
  Finalization, InMemoryRecoveryActionStore, finalized, finalize_loop, finalize, get, write_back,
}

-- The result that `finalize` owes, from the action that its id names.
abbrev pub outcome : Finalization → Option RecoveryAction → Result RecoveryAction
outcome f none = err recovery_action_not_found
outcome f (some action) =
    if is_terminal action.state || not (is_terminal f.state)
    then err invalid_recovery_action_transition
    else ok (finalized f action)

-- What `get` shows of one id after a `finalize` of it.
abbrev pub shown_after : Finalization → Option RecoveryAction → Option RecoveryAction
shown_after f before = elim (outcome f before) [ ok action ↦ some action | err e ↦ before ]

abbrev by_id : Uuid → List RecoveryAction → Option RecoveryAction
by_id i = find (λ action. action.action_id == i)

abbrev pub Loop : Type 0
Loop = Result (RecoveryAction × List RecoveryAction)

abbrev pub returned : Loop → Result RecoveryAction
returned (ok (done, _)) = ok done
returned (err e) = err e

abbrev pub written : List RecoveryAction → Loop → List RecoveryAction
written before (ok (_, after)) = after
written before (err e) = before

returned-finalize_loop :
    (f : Finalization) (actions : List RecoveryAction)
    → returned (finalize_loop f actions) ≡ outcome f (by_id f.action_id actions)
unfolding finalize_loop
returned-finalize_loop f [] = refl
returned-finalize_loop f (a ∷ actions) = ground (arith, returned-finalize_loop f actions)

by_id-written :
    (f : Finalization) (j : Uuid) (actions : List RecoveryAction)
    → by_id j (written actions (finalize_loop f actions))
      ≡ (if j == f.action_id then shown_after f (by_id f.action_id actions) else by_id j actions)
unfolding finalize_loop finalized
by_id-written f j [] = ground arith
by_id-written f j (a ∷ actions) =
    ground (arith, by_id-written f j actions, returned-finalize_loop f actions)

write_back-returned :
    (store : InMemoryRecoveryActionStore) (r : Loop) → (write_back store r).0 ≡ returned r
write_back-returned store (ok (done, after)) = refl
write_back-returned store (err e) = refl

pub write_back-written :
    (store : InMemoryRecoveryActionStore) (r : Loop)
    → (write_back store r).1.actions.items ≡ written store.actions.items r
write_back-written store (ok (done, after)) = refl
write_back-written store (err e) = refl

module _ (f : Finalization) (store : InMemoryRecoveryActionStore) where
  -- `finalize` finishes the action of its id exactly if that is not finished yet and the new state
  -- is final; it raises the not-found error for an unknown id, and the transition error otherwise.
  pub finalize-eq-outcome : (finalize f store).0 ≡ outcome f (get f.action_id store)
  unfolding finalize get
  finalize-eq-outcome =
      write_back-returned store (finalize_loop f store.actions.items)
      ∙ returned-finalize_loop f store.actions.items

  -- Afterwards `get` shows the finished action under its id, and every other id as before; on an
  -- error it shows every id as before.
  pub get-finalize :
      (j : Uuid)
      → get j (finalize f store).1
        ≡ (if j == f.action_id then shown_after f (get f.action_id store) else get j store)
  unfolding finalize get
  get-finalize j =
      ap (by_id j) (write_back-written store (finalize_loop f store.actions.items))
      ∙ by_id-written f j store.actions.items
