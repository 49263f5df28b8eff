-- ===== src/Storage/Keyset/Sorted.antt =====
-- The sorted list holds the same records, newest first.
use mathlib.Core.List.{Perm}
use mathlib.Core.List.Perm
use github_webhook_monitor.Prelude.{
  ◌≡◌, ◌≢◌, true, false, List, [], ◌∷◌, inl, inr, All, Bool-cases, arith,
}
use github_webhook_monitor.Storage.Keyset.{Key, key_ltb, insert_desc, sorted_desc}

pub key_ltb_asymm : (a b : Key) → key_ltb a b ≡ true → key_ltb b a ≡ false
key_ltb_asymm (a, i) (b, j) h = ground arith

pub key_ltb_irrefl : (a : Key) → key_ltb a a ≡ false
key_ltb_irrefl (a, i) = ground arith

pub key_ltb_trans : (a b c : Key) → key_ltb a b ≡ true → key_ltb b c ≡ true → key_ltb a c ≡ true
key_ltb_trans (a, i) (b, j) (c, k) h g = ground arith

pub key_ltb_total : (a b : Key) → a ≢ b → key_ltb a b ≡ false → key_ltb b a ≡ true
key_ltb_total (a, i) (b, j) n h = ground arith

module _ {ℓ} {A : Type ℓ} (key : A → Key) where
  -- Strictly newest first.
  abbrev pub IsNewestFirst : List A → Type 0
  IsNewestFirst [] = Unit
  IsNewestFirst (x ∷ xs) = All (λ y. key_ltb (key y) (key x) ≡ true) xs × IsNewestFirst xs

  -- No two records have the same key.
  abbrev pub HasDistinctKeys : List A → Type 0
  HasDistinctKeys [] = Unit
  HasDistinctKeys (x ∷ xs) = All (λ y. key x ≢ key y) xs × HasDistinctKeys xs

  insert_desc-perm : (x : A) (xs : List A) → Perm (insert_desc key x xs) (x ∷ xs)
  unfolding insert_desc
  insert_desc-perm x [] = Perm.rfl
  insert_desc-perm x (y ∷ ys) = elim (Bool-cases (key_ltb (key x) (key y))) [
    | inl h ↦
        rw (h, insert_desc) (Perm.trans (Perm.cons y (insert_desc-perm x ys)) (Perm.swap x y ys))
    | inr h ↦ rw (h, insert_desc) Perm.rfl
  ]

  -- The query's order rearranges the records and drops none.
  pub sorted_desc-perm : (xs : List A) → Perm (sorted_desc key xs) xs
  unfolding sorted_desc
  sorted_desc-perm [] = Perm.rfl
  sorted_desc-perm (x ∷ xs) =
      Perm.trans (insert_desc-perm x (sorted_desc key xs)) (Perm.cons x (sorted_desc-perm xs))

  module _ {κ} (P : A → Type κ) where
    All-insert_desc : (x : A) (xs : List A) → P x → All P xs → All P (insert_desc key x xs)
    unfolding insert_desc
    All-insert_desc x [] p h = (p, tt)
    All-insert_desc x (y ∷ ys) p h = elim (Bool-cases (key_ltb (key x) (key y))) [
      | inl e ↦ rw (e, insert_desc) (h.0, All-insert_desc x ys p h.1)
      | inr e ↦ rw (e, insert_desc) (p, h)
    ]

    pub All-sorted_desc : (xs : List A) → All P xs → All P (sorted_desc key xs)
    unfolding sorted_desc
    All-sorted_desc [] h = tt
    All-sorted_desc (x ∷ xs) h = All-insert_desc x (sorted_desc key xs) h.0 (All-sorted_desc xs h.1)

  below_trans :
      (x y : A) (ys : List A)
      → key_ltb (key y) (key x) ≡ true
      → All (λ z. key_ltb (key z) (key y) ≡ true) ys
      → All (λ z. key_ltb (key z) (key x) ≡ true) ys
  below_trans x y [] h a = tt
  below_trans x y (z ∷ zs) h a =
      (key_ltb_trans (key z) (key y) (key x) a.0 h, below_trans x y zs h a.1)

  insert_desc-IsNewestFirst :
      (x : A) (ys : List A)
      → All (λ y. key x ≢ key y) ys
      → IsNewestFirst ys
      → IsNewestFirst (insert_desc key x ys)
  unfolding insert_desc
  insert_desc-IsNewestFirst x [] d s = (tt, tt)
  insert_desc-IsNewestFirst x (y ∷ ys) d s = elim (Bool-cases (key_ltb (key x) (key y))) [
    | inl e ↦
        rw (e, insert_desc)
          (
            All-insert_desc (λ z. key_ltb (key z) (key y) ≡ true) x ys e s.0,
            insert_desc-IsNewestFirst x ys d.1 s.1,
          )
    | inr e ↦
        let less = key_ltb_total (key x) (key y) d.0 e in
        rw (e, insert_desc) ((less, below_trans x y ys less s.0), s)
  ]

  -- Records with distinct keys are sorted strictly.
  pub sorted_desc-IsNewestFirst :
      (xs : List A) → HasDistinctKeys xs → IsNewestFirst (sorted_desc key xs)
  unfolding sorted_desc
  sorted_desc-IsNewestFirst [] d = tt
  sorted_desc-IsNewestFirst (x ∷ xs) d =
      insert_desc-IsNewestFirst x (sorted_desc key xs) (All-sorted_desc (λ y. key x ≢ key y) xs d.0)
        (sorted_desc-IsNewestFirst xs d.1)
