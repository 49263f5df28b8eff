-- ===== src/Storage/Keyset/Filter.antt =====
-- Filtering before or after the sort gives the same page, and so does mapping.
use github_webhook_monitor.Prelude.{
  ℕ, zero, suc, Bool, true, false, ◌≡◌, refl, ap, ◌∙◌, sym, arith, Bool-cases, inl, inr, List, [],
  ◌∷◌, map, keep, take, All, if◌then◌else◌,
}
use github_webhook_monitor.Storage.Keyset.{Key, key_ltb, insert_desc, sorted_desc}
use github_webhook_monitor.Storage.Keyset.Sorted.{
  IsNewestFirst, HasDistinctKeys, key_ltb_trans, sorted_desc-IsNewestFirst,
}

module _ {ℓ} {A : Type ℓ} (key : A → Key) (p : A → Bool) where
  -- A record goes in front of older ones.
  insert_newest :
      (x : A) (ys : List A)
      → All (λ y. key_ltb (key x) (key y) ≡ false) ys
      → insert_desc key x (keep p ys) ≡ x ∷ keep p ys
  unfolding insert_desc
  insert_newest x [] h = refl
  insert_newest x (y ∷ ys) h = elim (Bool-cases (p y)) [
    | inl k ↦ rw (k, h.0) refl
    | inr k ↦ rw k (insert_newest x ys h.1)
  ]

  older_too :
      (x y : A) (ys : List A)
      → key_ltb (key x) (key y) ≡ false
      → All (λ z. key_ltb (key z) (key y) ≡ true) ys
      → All (λ z. key_ltb (key x) (key z) ≡ false) ys
  older_too x y [] h a = tt
  older_too x y (z ∷ zs) h a = (
    elim (Bool-cases (key_ltb (key x) (key z))) [
      | inl less ↦ absurd (ground (arith, key_ltb_trans (key x) (key z) (key y) less a.0, h))
      | inr less ↦ less
    ],
    older_too x y zs h a.1,
  )

  keep-insert_desc :
      (x : A) (ys : List A)
      → IsNewestFirst key ys
      → keep p (insert_desc key x ys) ≡ (if p x then insert_desc key x (keep p ys) else keep p ys)
  unfolding insert_desc
  keep-insert_desc x [] s = elim (Bool-cases (p x)) [ inl k ↦ rw k refl | inr k ↦ rw k refl ]
  keep-insert_desc x (y ∷ ys) s = elim (Bool-cases (key_ltb (key x) (key y))) [
    | inl less ↦ ground (arith, less, keep-insert_desc x ys s.1)
    | inr less ↦ elim (Bool-cases (p x)) [
      | inl k ↦ rw (less, k) (sym (insert_newest x (y ∷ ys) (less, older_too x y ys less s.0)))
      | inr k ↦ rw (less, k) refl
    ]
  ]

  -- With distinct keys the filter and the sort commute.
  pub sorted_desc-keep :
      (xs : List A)
      → HasDistinctKeys key xs
      → sorted_desc key (keep p xs) ≡ keep p (sorted_desc key xs)
  unfolding sorted_desc
  sorted_desc-keep [] d = refl
  sorted_desc-keep (x ∷ xs) d =
      let rest = sorted_desc-keep xs d.1 in
      let placed = keep-insert_desc x (sorted_desc key xs) (sorted_desc-IsNewestFirst key xs d.1) in
      elim (Bool-cases (p x)) [
        | inl k ↦ rw k (ap (insert_desc key x) rest ∙ sym (rw k at placed))
        | inr k ↦ rw k (rest ∙ sym (rw k at placed))
      ]

module _ {ℓ κ} {A : Type ℓ} {B : Type κ} (f : A → B) where
  pub map-take : (n : ℕ) (xs : List A) → map f (take n xs) ≡ take n (map f xs)
  map-take zero xs = refl
  map-take (suc n) [] = refl
  map-take (suc n) (x ∷ xs) = ap (λ ys. f x ∷ ys) (map-take n xs)

  pub map-keep : (p : B → Bool) (xs : List A) → map f (keep (λ a. p (f a)) xs) ≡ keep p (map f xs)
  map-keep p [] = refl
  map-keep p (x ∷ xs) = elim (Bool-cases (p (f x))) [
    | inl k ↦ rw k (ap (λ ys. f x ∷ ys) (map-keep p xs))
    | inr k ↦ rw k (map-keep p xs)
  ]

module _ {ℓ κ} {A : Type ℓ} {B : Type κ} (f : A → B) (key : B → Key) where
  map-insert_desc :
      (x : A) (ys : List A)
      → map f (insert_desc (λ a. key (f a)) x ys) ≡ insert_desc key (f x) (map f ys)
  unfolding insert_desc
  map-insert_desc x [] = refl
  map-insert_desc x (y ∷ ys) = ground (arith, map-insert_desc x ys)

  pub map-sorted_desc :
      (xs : List A) → map f (sorted_desc (λ a. key (f a)) xs) ≡ sorted_desc key (map f xs)
  unfolding sorted_desc
  map-sorted_desc [] = refl
  map-sorted_desc (x ∷ xs) =
      map-insert_desc x (sorted_desc (λ a. key (f a)) xs)
      ∙ ap (insert_desc key (f x)) (map-sorted_desc xs)
