-- ===== src/Services/Queries/Complete.antt =====
-- A client that follows the cursors of `list_attempts`.
use mathlib.Core.List.{append-nil}
use github_webhook_monitor.Prelude.{
  ℕ, zero, suc, ◌+◌, ◌<◌, String, false, Option, none, some, List, [], ◌++◌, is_empty, ltb, length,
  last?, take, true, ◌∷◌, ◌^◌, All, All-take, All-keep, subst, ◌≡◌, refl, sym, ap, ◌∙◌, inl, inr,
  arith, Bool-cases, Option-cases,
}
use mathlib.Core.Option.{some-injective}
use github_webhook_monitor.Errors.{Result, ok, invalid_delivery_attempts_cursor, ◌>>=◌}
use github_webhook_monitor.Domain.Datetime.{is_naive}
use github_webhook_monitor.Services.Cursors.{
  TextLibrary, is_in_range, decode_delivery_attempts_cursor, encode_delivery_attempts_cursor,
}
use github_webhook_monitor.Services.Cursors.RoundTrip.{Documented, keyset-round_trip}
use github_webhook_monitor.Domain.Deliveries.{DeliveryAttempt}
use github_webhook_monitor.Storage.Keyset.{
  Key, page, next_key, sorted_desc, walk, after_key, key_ltb,
}
use github_webhook_monitor.Storage.Keyset.Sorted.{HasDistinctKeys, All-sorted_desc}
use github_webhook_monitor.Storage.Keyset.Walk.{walk_complete}
use github_webhook_monitor.Storage.Deliveries.{
  InMemoryDeliveryStore, memory_delivery_store, list_attempts_page, attempt_key,
}
use github_webhook_monitor.Services.Queries.{after_of, list_attempts}

All-last {ℓ κ} :
    {A : Type ℓ} (P : A → Type κ) (xs : List A) {x : A} → All P xs → last? xs ≡ some x → P x
All-last P [] h e = absurd (ground arith)
All-last P (y ∷ []) h e = subst P (some-injective _ _ e) h.0
All-last P (y ∷ z ∷ xs) h e = All-last P (z ∷ xs) h.1 e

-- What holds of all stored attempts holds of a page of them.
pub All-page {κ} :
    (P : DeliveryAttempt → Type κ) (store : InMemoryDeliveryStore)
    → All P store.attempts.items
    → (limit : ℕ) (after : Option Key) → All P (list_attempts_page limit after store)
unfolding list_attempts_page page after_key
All-page P store all limit none =
    All-take P limit _ (All-sorted_desc attempt_key P store.attempts.items all)
All-page P store all limit (some k) = All-take P limit _ (
    All-keep P (λ a. key_ltb (attempt_key a) k) (sorted_desc attempt_key store.attempts.items)
      (All-sorted_desc attempt_key P store.attempts.items all))

-- An attempt whose time has a UTC form from year 1 to year 9999, and whose id has 128 bits.
abbrev pub HasCursor : DeliveryAttempt → Type 0
HasCursor a =
    (is_naive a.received_at ≡ false)
    × (is_in_range a.received_at.instant ≡ true)
    × (ltb a.attempt_id (2 ^ 128) ≡ true)

module _ (lib : TextLibrary) (limit : ℕ) (store : InMemoryDeliveryStore) where
  -- The items of at most `fuel` pages, each from the cursor of the page before it.
  unfoldable pub follow : ℕ → Option String → Result (List DeliveryAttempt)
  follow zero cursor = ok []
  follow (suc fuel) cursor = do
    p ←
        list_attempts (decode_delivery_attempts_cursor lib) (encode_delivery_attempts_cursor lib)
          memory_delivery_store limit cursor store
    elim p.next_cursor [
      | none ↦ ok p.items
      | some c ↦ do rest ← follow fuel (some c); ok (p.items ++ rest)
    ]

  module _ (doc : Documented lib) (all : All HasCursor store.attempts.items) where
    decoded :
        (text : String) (key : Key)
        → decode_delivery_attempts_cursor lib text ≡ ok key
        → is_empty text ≡ false
        → after_of (decode_delivery_attempts_cursor lib) (some text) ≡ ok (some key)
    decoded text key back full = ground (arith, back, full)

    abbrev rows : Option Key → List DeliveryAttempt
    rows after = page attempt_key (limit + 1) after store.attempts.items

    row-HasCursor :
        (after : Option Key) (x : DeliveryAttempt)
        → last? (take limit (rows after)) ≡ some x
        → HasCursor x
    unfolding list_attempts_page
    row-HasCursor after x found =
        All-last HasCursor (take limit (rows after))
          (All-take HasCursor limit (rows after) (All-page HasCursor store all (limit + 1) after))
          found

    follow-walk :
        (fuel : ℕ) (cursor : Option String) (after : Option Key)
        → after_of (decode_delivery_attempts_cursor lib) cursor ≡ ok after
        → follow fuel cursor ≡ ok (walk attempt_key fuel limit after store.attempts.items)
    unfolding follow walk list_attempts list_attempts_page next_key
    follow-walk zero cursor after e = refl
    follow-walk (suc fuel) cursor after e = elim (Bool-cases (ltb limit (length (rows after)))) [
      | inr last ↦ rw (e, last) (ap ok (sym (append-nil _)))
      | inl more ↦ elim (Option-cases (last? (take limit (rows after)))) [
        | inl nothing ↦ rw (e, more, nothing) (ap ok (sym (append-nil _)))
        | inr (x, found) ↦
            let (aware, range, small) = row-HasCursor after x found in
            let (text, encoded, full, back) =
              keyset-round_trip lib doc invalid_delivery_attempts_cursor "received_at" "attempt_id"
                x.received_at x.attempt_id refl refl refl aware range small in
            rw (e, more, found, encoded)
              (rw (
                follow-walk fuel (some text) (some (attempt_key x))
                  (decoded text (attempt_key x) back full)))
      ]
    ]

    -- With stored attempts that differ in time or id, whose times are from year 1 to year 9999 in UTC
    -- and whose ids have 128 bits, and pages of at least one attempt, a client that asks for more pages
    -- than there are attempts, each with the cursor of the page before, gets every stored attempt once,
    -- newest first.
    pub follow_complete :
        (fuel : ℕ)
        → HasDistinctKeys attempt_key store.attempts.items
        → 0 < limit
        → length (sorted_desc attempt_key store.attempts.items) < fuel
        → follow fuel none ≡ ok (sorted_desc attempt_key store.attempts.items)
    follow_complete fuel distinct positive enough =
        follow-walk fuel none none refl
        ∙ ap ok (walk_complete attempt_key store.attempts.items limit fuel distinct positive enough)
