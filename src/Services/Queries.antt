-- ===== src/Services/Queries.antt =====
-- app/services/delivery_queries.py and app/services/recovery_actions.py: pages of the ledger and
-- of the journal. `decode` and `encode` are the codecs of
-- Services.Cursors.
pub mod Complete
use github_webhook_monitor.Prelude.{
  ℕ, ◌+◌, ℤ, pos, negsuc, String, ◌&&◌, Option, none, some, List, is_empty, leb, length, ltb, last?,
  take, parse_int, if◌then◌else◌,
}
use github_webhook_monitor.Errors.{
  Exn, Result, ok, err, invalid_delivery_attempts_limit, invalid_recovery_actions_limit, ◌>>=◌,
}
use github_webhook_monitor.Domain.Deliveries.{DeliveryAttempt}
use github_webhook_monitor.Domain.RecoveryActions.{RecoveryAction}
use github_webhook_monitor.Storage.Keyset.{Key}
use github_webhook_monitor.Storage.Deliveries.{DeliveryStore}
use github_webhook_monitor.Storage.RecoveryActions.{RecoveryActionStore}

-- A limit from 1 to 100.
abbrev limit_of : Exn → Option ℤ → Result ℕ
limit_of e none = err e
limit_of e (some (negsuc n)) = err e
limit_of e (some (pos n)) = if leb 1 n && leb n 100 then ok n else err e

unfoldable pub parse_delivery_attempts_limit : Option String → Result ℕ
parse_delivery_attempts_limit none = ok 50
parse_delivery_attempts_limit (some value) =
    limit_of invalid_delivery_attempts_limit (parse_int value)

unfoldable pub parse_recovery_actions_limit : Option String → Result ℕ
parse_recovery_actions_limit none = ok 50
parse_recovery_actions_limit (some value) =
    limit_of invalid_recovery_actions_limit (parse_int value)

pub record DeliveryAttemptsPage : Type 0 where
  pub items : List DeliveryAttempt
  pub next_cursor : Option String

pub record RecoveryActionsPage : Type 0 where
  pub items : List RecoveryAction
  pub next_cursor : Option String

-- `decode(cursor) if cursor else None`
abbrev pub after_of : (String → Result Key) → Option String → Result (Option Key)
after_of decode none = ok none
after_of decode (some cursor) =
    if is_empty cursor
    then ok none
    else elim (decode cursor) [ ok key ↦ ok (some key) | err e ↦ err e ]

-- `encode(items[-1]) if len(rows) > limit and items else None`
abbrev pub next_cursor_of {ℓ} :
    {A : Type ℓ} → (A → Result String) → ℕ → List A → Result (Option String)
next_cursor_of encode limit rows =
    if ltb limit (length rows)
    then elim (last? (take limit rows)) [ none ↦ ok none | some x ↦ encode x >>= λ c. ok (some c) ]
    else ok none

module _ (decode : String → Result Key) (encode : DeliveryAttempt → Result String)
    (delivery_store : DeliveryStore) where
  unfoldable pub list_attempts :
      ℕ → Option String → delivery_store.State → Result DeliveryAttemptsPage
  list_attempts limit cursor store = do
    after ← after_of decode cursor
    attempts ← delivery_store.list_attempts_page (limit + 1) after store
    next_cursor ← next_cursor_of encode limit attempts
    ok (record { items = take limit attempts; next_cursor = next_cursor })

module _ (decode : String → Result Key) (encode : RecoveryAction → Result String)
    (recovery_action_store : RecoveryActionStore) where
  unfoldable pub list_actions :
      ℕ → Option String → recovery_action_store.State → Result RecoveryActionsPage
  list_actions limit cursor store = do
    after ← after_of decode cursor
    actions ← recovery_action_store.list_recent (limit + 1) after store
    next_cursor ← next_cursor_of encode limit actions
    ok (record { items = take limit actions; next_cursor = next_cursor })
