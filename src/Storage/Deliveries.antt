-- ===== src/Storage/Deliveries.antt =====
-- app/storage/deliveries.py: the contract of a delivery store, and the in-memory store.
pub mod Ledger
use github_webhook_monitor.Prelude.{ℕ, Option, none, some, List, [], ◌∷◌, find, ◌==◌}
use github_webhook_monitor.Errors.{Result, ok, err, runtime_error}
use github_webhook_monitor.Domain.Datetime.{Uuid}
use github_webhook_monitor.Domain.Deliveries.{DeliveryAttempt}
use github_webhook_monitor.Storage.Deque.{Deque, bounded, appendleft}
use github_webhook_monitor.Storage.Keyset.{Key, page}

-- The protocol `DeliveryStore`. Its methods may raise; the three queries leave the store alone.
pub record DeliveryStore : Type 1 where
  pub State : Type 0
  pub add : DeliveryAttempt → State → Result (Unit {0}) × State
  pub list_recent : State → Result (List DeliveryAttempt)
  pub list_attempts_page : ℕ → Option Key → State → Result (List DeliveryAttempt)
  pub get_attempt : Uuid → State → Result (Option DeliveryAttempt)

pub record InMemoryDeliveryStore : Type 0 where
  pub attempts : Deque DeliveryAttempt

unfoldable pub in_memory_delivery_store : ℕ → InMemoryDeliveryStore
unfolding bounded
in_memory_delivery_store max_events = record { attempts = bounded max_events }

-- the property `max_events`
unfoldable pub max_events : InMemoryDeliveryStore → Result ℕ
max_events store = elim store.attempts.maxlen [ none ↦ err runtime_error | some n ↦ ok n ]

-- `(attempt.received_at, attempt.attempt_id)`, also the fields of a `DeliveryAttemptKeyset`
abbrev pub attempt_key : DeliveryAttempt → Key
attempt_key attempt = (attempt.received_at.instant, attempt.attempt_id)

unfoldable pub add : DeliveryAttempt → InMemoryDeliveryStore → InMemoryDeliveryStore
unfolding appendleft
add attempt store = record store { attempts = appendleft attempt store.attempts }

unfoldable pub list_recent : InMemoryDeliveryStore → List DeliveryAttempt
list_recent store = store.attempts.items

unfoldable pub list_attempts_page : ℕ → Option Key → InMemoryDeliveryStore → List DeliveryAttempt
list_attempts_page limit after store = page attempt_key limit after store.attempts.items

unfoldable pub get_attempt : Uuid → InMemoryDeliveryStore → Option DeliveryAttempt
get_attempt attempt_id store =
    find (λ attempt. attempt.attempt_id == attempt_id) store.attempts.items

-- The in-memory store meets the protocol, and its methods never raise.
abbrev pub memory_delivery_store : DeliveryStore
memory_delivery_store = record {
  State = InMemoryDeliveryStore;
  add = λ attempt store. (ok tt, add attempt store);
  list_recent = λ store. ok (list_recent store);
  list_attempts_page = λ limit after store. ok (list_attempts_page limit after store);
  get_attempt = λ attempt_id store. ok (get_attempt attempt_id store);
}

-- Storing attempts one after another.
unfoldable pub add_all : List DeliveryAttempt → InMemoryDeliveryStore → InMemoryDeliveryStore
add_all [] store = store
add_all (attempt ∷ attempts) store = add_all attempts (add attempt store)
