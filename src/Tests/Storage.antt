-- ===== src/Tests/Storage.antt =====
-- The storage theorems at concrete inputs.
use mathlib.Core.List.{reverse}
use github_webhook_monitor.Prelude.{
  ℕ, pos, none, some, List, [], ◌∷◌, take, ◌≡◌, refl, arith, ◌==◌, if◌then◌else◌,
}
use github_webhook_monitor.Domain.Deliveries.{DeliveryAttempt}
use github_webhook_monitor.Domain.RecoveryActions.{state_accepted}
use github_webhook_monitor.Storage.Keyset.{sorted_desc, walk}
use github_webhook_monitor.Storage.Keyset.Walk.{walk_complete}
use github_webhook_monitor.Storage.Deliveries.{
  InMemoryDeliveryStore, in_memory_delivery_store, add, add_all, list_recent, get_attempt,
  attempt_key,
}
use github_webhook_monitor.Storage.Deliveries.Ledger.{
  list_recent-add_all, get_attempt_retained, get_attempt_evicted,
}
use github_webhook_monitor.Storage.RecoveryActions.{
  Creation, Finalization, InMemoryRecoveryActionStore, initiated_action,
  create_initiated_github_redelivery, finalize, get,
}
use github_webhook_monitor.Storage.RecoveryActions.Finalize.{
  outcome, shown_after, finalize-eq-outcome, get-finalize,
}
use github_webhook_monitor.Storage.RecoveryActions.Lifecycle.{
  here, next, create, finish, Follows, Run-Follows,
}
use github_webhook_monitor.Storage.RecoveryActions.WellFormed.{
  is_initiated, AllWellFormed, Run-AllWellFormed,
}
use github_webhook_monitor.Tests.Data.{attempt, granted, operator, time}

abbrev ledger : List DeliveryAttempt
ledger = attempt 1 10 ∷ attempt 2 30 ∷ attempt 3 30 ∷ []

list_recent-add_all_example :
    list_recent (add_all ledger (in_memory_delivery_store 2)) ≡ take 2 (reverse ledger)
list_recent-add_all_example = list_recent-add_all 2 ledger

abbrev two_slots : InMemoryDeliveryStore
two_slots = record { attempts = record { maxlen = some 2; items = [] } }

get_attempt_retained_example :
    get_attempt 1 (add_all (attempt 2 30 ∷ []) (add (attempt 1 10) two_slots)) ≡ some (attempt 1 10)
get_attempt_retained_example =
    get_attempt_retained 2 (attempt 1 10) (attempt 2 30 ∷ []) two_slots refl (refl, tt)
      (omega arith)

get_attempt_evicted_example :
    get_attempt 1 (add_all (attempt 2 30 ∷ attempt 3 30 ∷ []) (add (attempt 1 10) two_slots)) ≡ none
get_attempt_evicted_example =
    get_attempt_evicted 2 (attempt 1 10) (attempt 2 30 ∷ attempt 3 30 ∷ []) two_slots refl
      (refl, (refl, tt)) (omega arith)

walk_complete_example : walk attempt_key 4 2 none ledger ≡ sorted_desc attempt_key ledger
unfolding sorted_desc
walk_complete_example =
    walk_complete attempt_key ledger 2 4
      (
        ((λ h. absurd (ground arith)), ((λ h. absurd (ground arith)), tt)),
        (((λ h. absurd (ground arith)), tt), (tt, tt)),
      )
      (omega arith) (omega arith)

abbrev pub request_of : ℕ → Creation
request_of id = record {
  action_id = id;
  attempt = attempt 1 10;
  repository = "octo/hello";
  github_delivery_id = pos 42;
  requested_at = time 11;
  principal = operator;
  authorization = some granted;
}

abbrev accepted_at : ℕ → Finalization
accepted_at id = record {
  action_id = id;
  state = state_accepted;
  completed_at = time 12;
  upstream_status_code = some 202;
  failure_category = none;
}

abbrev journal : InMemoryRecoveryActionStore
journal = record {
  actions = record { maxlen = some 2; items = initiated_action (request_of 5) ∷ [] };
}

finalize-eq-outcome_example :
    (finalize (accepted_at 5) journal).0 ≡ outcome (accepted_at 5) (get 5 journal)
finalize-eq-outcome_example = finalize-eq-outcome (accepted_at 5) journal

get-finalize_example :
    get 5 (finalize (accepted_at 5) journal).1
    ≡ (if 5 == 5 then shown_after (accepted_at 5) (get 5 journal) else get 5 journal)
get-finalize_example = get-finalize (accepted_at 5) journal 5

abbrev finished_journal : InMemoryRecoveryActionStore
finished_journal = (finalize (accepted_at 5) journal).1

abbrev later_journal : InMemoryRecoveryActionStore
later_journal = (create_initiated_github_redelivery (request_of 6) finished_journal).1

Run-Follows_example : Follows (initiated_action (request_of 5)) (get 5 later_journal)
unfolding get initiated_action
Run-Follows_example = Run-Follows (initiated_action (request_of 5)) refl (
    next (next here (finish (accepted_at 5) journal)) (create (request_of 6) finished_journal refl))

Run-AllWellFormed_example : AllWellFormed later_journal
unfolding initiated_action
Run-AllWellFormed_example =
    Run-AllWellFormed {i = 5} (is_initiated refl refl refl refl, tt)
      (next (next here (finish (accepted_at 5) journal))
        (create (request_of 6) finished_journal refl))
