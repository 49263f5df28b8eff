-- ===== src/Storage/Deque.antt =====
-- `collections.deque` with a bound, as the in-memory stores use it.
use github_webhook_monitor.Prelude.{ℕ, Option, none, some, List, [], ◌∷◌, take}

pub record Deque {ℓ} (A : Type ℓ) : Type ℓ where
  pub maxlen : Option ℕ
  pub items : List A

module _ {ℓ} {A : Type ℓ} where
  -- `deque(maxlen=n)`
  unfoldable pub bounded : ℕ → Deque A
  bounded n = record { maxlen = some n; items = [] }

  abbrev pub truncate : Option ℕ → List A → List A
  truncate none xs = xs
  truncate (some n) xs = take n xs

  -- `d.appendleft(x)` drops from the right what passes the bound
  unfoldable pub appendleft : A → Deque A → Deque A
  appendleft x d = record d { items = truncate d.maxlen (x ∷ d.items) }
