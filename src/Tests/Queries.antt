-- ===== src/Tests/Queries.antt =====
-- The theorems on the query endpoint at concrete inputs.
use github_webhook_monitor.Prelude.{◌+◌, All, ℕ, none, some, [], ◌∷◌, ◌≡◌, refl, arith}
use github_webhook_monitor.Errors.{ok}
use github_webhook_monitor.Storage.Keyset.{sorted_desc}
use github_webhook_monitor.Storage.Deliveries.{InMemoryDeliveryStore, attempt_key}
use github_webhook_monitor.Services.Queries.Complete.{follow, HasCursor, follow_complete}
use github_webhook_monitor.Services.Cursors.{is_in_range}
use github_webhook_monitor.Tests.Data.{attempt}
use github_webhook_monitor.Tests.Texts.{library, library-Documented}

-- The first microseconds of year 1.
abbrev at : ℕ → ℕ
at n = 86400000000 + n

abbrev store : InMemoryDeliveryStore
store = record {
  attempts = record {
    maxlen = some 5;
    items = attempt 2 (at 30) ∷ attempt 3 (at 30) ∷ attempt 1 (at 10) ∷ [];
  };
}

all-HasCursor : All HasCursor store.attempts.items
unfolding is_in_range
all-HasCursor = ((refl, refl, refl), ((refl, refl, refl), ((refl, refl, refl), tt)))

follow_complete_example :
    follow library 2 store 4 none ≡ ok (sorted_desc attempt_key store.attempts.items)
unfolding sorted_desc
follow_complete_example =
    follow_complete library 2 store library-Documented all-HasCursor 4
      (
        ((λ h. absurd (ground arith)), ((λ h. absurd (ground arith)), tt)),
        (((λ h. absurd (ground arith)), tt), (tt, tt)),
      )
      (omega arith) (omega arith)

abbrev one_attempt : InMemoryDeliveryStore
one_attempt = record { attempts = record { maxlen = some 5; items = attempt 1 5 ∷ [] } }
