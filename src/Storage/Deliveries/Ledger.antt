-- ===== src/Storage/Deliveries/Ledger.antt =====
-- What the in-memory delivery store remembers.
use mathlib.Core.List.{reverse, reverse-append, append_assoc, append-nil}
use github_webhook_monitor.Prelude.{
  ==_iff, ◌<◌, none, length-append, All-append, length, false, All, ℕ, zero, suc, ◌≤◌, ◌≡◌, refl,
  ◌∙◌, sym, ap, Option, some, List, [], ◌∷◌, ◌++◌, find, take, arith, ◌==◌, take-take,
}
use github_webhook_monitor.Domain.Datetime.{Uuid}
use github_webhook_monitor.Domain.Deliveries.{DeliveryAttempt}
use github_webhook_monitor.Storage.Deliveries.{
  get_attempt, InMemoryDeliveryStore, in_memory_delivery_store, add, list_recent, add_all,
}

take-prepend {ℓ} :
    {A : Type ℓ} (k m : ℕ) (xs ys : List A) → k ≤ m → take k (xs ++ take m ys) ≡ take k (xs ++ ys)
take-prepend k m [] ys h = take-take k m ys h
take-prepend zero m (x ∷ xs) ys h = refl
take-prepend (suc k) m (x ∷ xs) ys h = ap (◌∷◌ x) (take-prepend k m xs ys (omega arith))

reverse-cons {ℓ} :
    {A : Type ℓ} (x : A) (xs ys : List A) → reverse xs ++ x ∷ ys ≡ reverse (x ∷ xs) ++ ys
reverse-cons x xs ys =
    sym (append_assoc (reverse xs) (x ∷ []) ys)
    ∙ ap (λ r. r ++ ys) (sym (reverse-append (x ∷ []) xs))

-- The store holds the first `n` of what was stored, newest first, whatever it held before.
items-add_all :
    (n : ℕ) (attempts : List DeliveryAttempt) (store : InMemoryDeliveryStore)
    (h : List DeliveryAttempt)
    → store.attempts.maxlen ≡ some n
    → store.attempts.items ≡ take n h
    → list_recent (add_all attempts store) ≡ take n (reverse attempts ++ h)
unfolding add_all add list_recent
items-add_all n [] store h e w = w
items-add_all n (a ∷ attempts) store h e w =
    items-add_all n attempts (add a store) (a ∷ h) e
      (rw (e, w) (take-prepend n n (a ∷ []) h (omega arith)))
    ∙ ap (take n) (reverse-cons a attempts h)

-- A store with room for `n` attempts lists exactly the `n` attempts that were stored last, the
-- newest first.
pub list_recent-add_all :
    (n : ℕ) (attempts : List DeliveryAttempt)
    → list_recent (add_all attempts (in_memory_delivery_store n)) ≡ take n (reverse attempts)
unfolding in_memory_delivery_store
list_recent-add_all n attempts =
    items-add_all n attempts (in_memory_delivery_store n) [] refl (nil n)
    ∙ ap (take n) (append-nil (reverse attempts))
  where
    nil : (k : ℕ) → ◌≡◌ {A = List DeliveryAttempt} [] (take k [])
    nil zero = refl
    nil (suc k) = refl

length-reverse {ℓ} : {A : Type ℓ} (xs : List A) → length (reverse xs) ≡ length xs
length-reverse [] = refl
length-reverse (x ∷ xs) =
    ap length (reverse-append (x ∷ []) xs)
    ∙ omega (arith, length-append (reverse xs) (x ∷ []), length-reverse xs)

All-reverse {ℓ κ} : {A : Type ℓ} (P : A → Type κ) (xs : List A) → All P xs → All P (reverse xs)
All-reverse P [] h = tt
All-reverse P (x ∷ xs) h =
    rw (reverse-append (x ∷ []) xs)
      (All-append P (reverse xs) (x ∷ []) (All-reverse P xs h.1, (h.0, tt)))

-- `attempt.attempt_id != attempt_id`
abbrev pub IsOther : Uuid → DeliveryAttempt → Type 0
IsOther i attempt = (attempt.attempt_id == i) ≡ false

abbrev by_id : Uuid → List DeliveryAttempt → Option DeliveryAttempt
by_id i = find (λ attempt. attempt.attempt_id == i)

find_in_window :
    (n : ℕ) (xs ys : List DeliveryAttempt) (a : DeliveryAttempt)
    → All (IsOther a.attempt_id) xs
    → length xs < n
    → by_id a.attempt_id (take n (xs ++ a ∷ ys)) ≡ some a
find_in_window zero xs ys a o h = absurd (omega arith)
find_in_window (suc n) [] ys a o h = rw ((==_iff a.attempt_id a.attempt_id).1 refl)
find_in_window (suc n) (x ∷ xs) ys a o h = rw o.0 (find_in_window n xs ys a o.1 (omega arith))

find_past_window :
    (n i : ℕ) (xs ys : List DeliveryAttempt)
    → All (IsOther i) xs
    → n ≤ length xs
    → by_id i (take n (xs ++ ys)) ≡ none
find_past_window zero i xs ys o h = refl
find_past_window (suc n) i [] ys o h = absurd (omega arith)
find_past_window (suc n) i (x ∷ xs) ys o h = rw o.0 (find_past_window n i xs ys o.1 (omega arith))

module _ (n : ℕ) (a : DeliveryAttempt) (later : List DeliveryAttempt)
    (store : InMemoryDeliveryStore) (cap : store.attempts.maxlen ≡ some n)
    (others : All (IsOther a.attempt_id) later) where
  window :
      list_recent (add_all later (add a store)) ≡ take n (reverse later ++ a ∷ store.attempts.items)
  unfolding add
  window = items-add_all n later (add a store) (a ∷ store.attempts.items) cap (rw cap)

  -- An attempt is found by its id as long as fewer than `n` others were stored after it, in a
  -- store with room for `n`.
  pub get_attempt_retained :
      length later < n → get_attempt a.attempt_id (add_all later (add a store)) ≡ some a
  unfolding get_attempt list_recent
  get_attempt_retained h =
      ap (by_id a.attempt_id) window
      ∙ find_in_window n (reverse later) store.attempts.items a
          (All-reverse (IsOther a.attempt_id) later others) (omega (arith, length-reverse later))

  -- In a store with room for `n` attempts, an attempt is gone after `n` others were stored.
  pub get_attempt_evicted :
      n ≤ length later → get_attempt a.attempt_id (add_all later (add a store)) ≡ none
  unfolding get_attempt list_recent
  get_attempt_evicted h =
      ap (by_id a.attempt_id) window
      ∙ find_past_window n a.attempt_id (reverse later) (a ∷ store.attempts.items)
          (All-reverse (IsOther a.attempt_id) later others) (omega (arith, length-reverse later))
