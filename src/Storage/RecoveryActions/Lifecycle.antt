-- ===== src/Storage/RecoveryActions/Lifecycle.antt =====
-- The life of a recovery action in the journal: initiated, then finished at most once.
use github_webhook_monitor.Prelude.{
  ℕ, zero, suc, ◌≡◌, refl, true, false, Option, none, some, List, [], ◌∷◌, find, take, inl, inr,
  ◌⊎◌, ◌==◌, arith, Bool-cases, ==_iff,
}
use github_webhook_monitor.Domain.Datetime.{Uuid}
use github_webhook_monitor.Domain.RecoveryActions.{RecoveryAction, is_terminal}
use github_webhook_monitor.Storage.Deque.{truncate}
use github_webhook_monitor.Storage.RecoveryActions.{
  Creation, Finalization, InMemoryRecoveryActionStore, initiated_action,
  create_initiated_github_redelivery, finalized, finalize, get,
}
use github_webhook_monitor.Storage.RecoveryActions.Finalize.{shown_after, get-finalize}

-- One call on the journal. A creation draws another id than `i`: no UUID is drawn twice.
pub data Step (i : Uuid) : InMemoryRecoveryActionStore → InMemoryRecoveryActionStore → Type 0 where
  create :
      (c : Creation) (s : InMemoryRecoveryActionStore)
      → (c.action_id == i) ≡ false
      → Step i s (create_initiated_github_redelivery c s).1
  finish : (f : Finalization) (s : InMemoryRecoveryActionStore) → Step i s (finalize f s).1

pub data Run (i : Uuid) (s : InMemoryRecoveryActionStore)
    : InMemoryRecoveryActionStore → Type 0 where
  here : Run i s s
  next : {t u : InMemoryRecoveryActionStore} → Run i s t → Step i t u → Run i s u

-- What `get` may show later of an action that it shows now: the action unchanged, the action
-- finished (if it was not), or nothing, once newer actions have pushed it out.
pub data Follows (a : RecoveryAction) : Option RecoveryAction → Type 0 where
  unchanged : Follows a (some a)
  finished :
      (f : Finalization)
      → is_terminal a.state ≡ false
      → is_terminal f.state ≡ true
      → Follows a (some (finalized f a))
  evicted : Follows a none

find-take :
    (i : Uuid) (n : ℕ) (xs : List RecoveryAction) {o : Option RecoveryAction}
    → find (λ a. a.action_id == i) xs ≡ o
    → (find (λ a. a.action_id == i) (take n xs) ≡ o)
      ⊎ (find (λ a. a.action_id == i) (take n xs) ≡ none)
find-take i zero xs h = inr refl
find-take i (suc n) [] h = inl h
find-take i (suc n) (x ∷ xs) h = elim (Bool-cases (x.action_id == i)) [
  | inl e ↦ inl (ground arith)
  | inr e ↦ rw e (find-take i n xs (rw e at h))
]

get-create :
    (i : Uuid) (c : Creation) (s : InMemoryRecoveryActionStore)
    → (c.action_id == i) ≡ false
    → (get i (create_initiated_github_redelivery c s).1 ≡ get i s)
      ⊎ (get i (create_initiated_github_redelivery c s).1 ≡ none)
unfolding get create_initiated_github_redelivery
get-create i c s other = cut s.actions.maxlen
  where
    cut :
        (m : Option ℕ)
        → (find (λ a. a.action_id == i) (truncate m (initiated_action c ∷ s.actions.items))
            ≡ get i s)
          ⊎ (find (λ a. a.action_id == i) (truncate m (initiated_action c ∷ s.actions.items))
              ≡ none)
    cut none = inl (rw other)
    cut (some n) = find-take i n (initiated_action c ∷ s.actions.items) (rw other)

Follows-none : {a : RecoveryAction} {o : Option RecoveryAction} → o ≡ none → Follows a o
Follows-none {a} e = rw e evicted

Follows-finish :
    {a : RecoveryAction} {o : Option RecoveryAction} (f : Finalization)
    → Follows a o
    → Follows a (shown_after f o)
unfolding finalized
Follows-finish {a} f unchanged = elim (Bool-cases (is_terminal a.state)) [
  | inl done ↦ rw (done, shown_after) unchanged
  | inr pending ↦ elim (Bool-cases (is_terminal f.state)) [
    | inl final ↦ rw (pending, final, shown_after) (finished f pending final)
    | inr other ↦ rw (pending, other, shown_after) unchanged
  ]
]
Follows-finish f (finished g pending final) = rw (final, shown_after) (finished g pending final)
Follows-finish f evicted = evicted

Follows-Step :
    {i : Uuid} {s t : InMemoryRecoveryActionStore} {a : RecoveryAction}
    → Step i s t
    → Follows a (get i s)
    → Follows a (get i t)
Follows-Step {i} {a = a} (create c s other) h = elim (get-create i c s other) [
  | inl same ↦ rw same h
  | inr gone ↦ rw gone evicted
]
Follows-Step {i} {a = a} (finish f s) h = elim (Bool-cases (i == f.action_id)) [
  | inl e ↦ rw (get-finalize, e) (Follows-finish f (rw ((==_iff i f.action_id).0 e) at h))
  | inr e ↦ rw (get-finalize, e) h
]

-- Whatever calls are made later, as long as no creation draws its id again, the journal shows of an
-- action it once held: the same action, or that action finished once by a `finalize` with a final
-- state, if it was not finished, or nothing any more.
pub Run-Follows :
    {i : Uuid} {s t : InMemoryRecoveryActionStore} (a : RecoveryAction)
    → get i s ≡ some a
    → Run i s t
    → Follows a (get i t)
Run-Follows a e here = rw e unchanged
Run-Follows a e (next r st) = Follows-Step st (Run-Follows a e r)
