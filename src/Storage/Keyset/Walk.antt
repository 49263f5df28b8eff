-- ===== src/Storage/Keyset/Walk.antt =====
-- Following the cursors lists every record exactly once, in order.
use mathlib.Core.List.{append_assoc, append-nil}
use native.Mathlib.Numerals.{add-one}
use github_webhook_monitor.Prelude.{
  ℕ, zero, suc, ◌+◌, ◌≤◌, ◌<◌, ◌≡◌, refl, ◌∙◌, sym, ap, true, Option, none, some, List, [], ◌∷◌,
  ◌++◌, inl, inr, All, Bool-cases, keep, take, drop, last?, length, ltb, arith, subst, length-take,
  take-take, lt→ltb, ltb→lt, ltb-false, take_of_length-le, take-append-drop, length-drop,
}
use github_webhook_monitor.Storage.Keyset.{
  Key, key_ltb, sorted_desc, after_key, page, next_key, walk,
}
use github_webhook_monitor.Storage.Keyset.Sorted.{
  key_ltb_asymm, key_ltb_irrefl, IsNewestFirst, HasDistinctKeys, sorted_desc-IsNewestFirst,
}

module _ {ℓ} {A : Type ℓ} (key : A → Key) where
  keep_every :
      (k : Key) (ys : List A)
      → All (λ y. key_ltb (key y) k ≡ true) ys
      → keep (λ y. key_ltb (key y) k) ys ≡ ys
  keep_every k [] h = refl
  keep_every k (y ∷ ys) h = rw h.0 (ap (◌∷◌ y) (keep_every k ys h.1))

  All-mid : (P : A → Type 0) (pre : List A) (z : A) (ys : List A) → All P (pre ++ z ∷ ys) → P z
  All-mid P [] z ys h = h.0
  All-mid P (x ∷ pre) z ys h = All-mid P pre z ys h.1

  -- In a strictly sorted list, what comes after the key of `z` is what stands behind `z`.
  keep_after :
      (pre : List A) (z : A) (ys : List A)
      → IsNewestFirst key (pre ++ z ∷ ys)
      → keep (λ y. key_ltb (key y) (key z)) (pre ++ z ∷ ys) ≡ ys
  keep_after [] z ys s = rw (key_ltb_irrefl (key z)) (keep_every (key z) ys s.0)
  keep_after (x ∷ pre) z ys s =
      let newer = All-mid (λ y. key_ltb (key y) (key x) ≡ true) pre z ys s.0 in
      rw (key_ltb_asymm (key z) (key x) newer) (keep_after pre z ys s.1)

  -- The last of the first `suc n` records of a longer list.
  take_last :
      (n : ℕ) (xs : List A)
      → suc n ≤ length xs
      → (ys : List A) × (z : A) × (take (suc n) xs ≡ ys ++ z ∷ [])
        × (last? (take (suc n) xs) ≡ some z)
  take_last n [] h = absurd (omega arith)
  take_last zero (x ∷ xs) h = ([], x, refl, refl)
  take_last (suc n) (x ∷ []) h = absurd (omega arith)
  take_last (suc n) (x ∷ y ∷ xs) h =
      let (ys, z, cut, last) = take_last n (y ∷ xs) (omega arith) in
      (x ∷ ys, z, ap (◌∷◌ x) cut, last)

  regroup :
      (pre ys : List A) (z : A) (back : List A) {front : List A}
      → front ≡ ys ++ z ∷ []
      → (pre ++ front) ++ back ≡ (pre ++ ys) ++ z ∷ back
  regroup pre ys z back cut = rw cut (simp append_assoc)

  module _ (xs : List A) (sorted : IsNewestFirst key (sorted_desc key xs)) (n : ℕ) where
    -- The rows behind the last item of a page that is not the last.
    rest_of_page :
        (pre rest : List A)
        → sorted_desc key xs ≡ pre ++ rest
        → suc n ≤ length rest
        → (z : A) × (last? (take (suc n) rest) ≡ some z)
          × (after_key key (some (key z)) (sorted_desc key xs) ≡ drop (suc n) rest)
          × (sorted_desc key xs ≡ (pre ++ take (suc n) rest) ++ drop (suc n) rest)
    unfolding after_key
    rest_of_page pre rest split more =
        let (ys, z, cut, last) = take_last n rest more in
        let whole : sorted_desc key xs ≡ (pre ++ take (suc n) rest) ++ drop (suc n) rest =
          split
          ∙ ap (λ r. pre ++ r) (sym (take-append-drop (suc n) rest))
          ∙ sym (append_assoc pre (take (suc n) rest) (drop (suc n) rest)) in
        let shown : sorted_desc key xs ≡ (pre ++ ys) ++ z ∷ drop (suc n) rest =
          whole ∙ regroup pre ys z (drop (suc n) rest) cut in
        (
          z,
          last,
          rw shown (
              keep_after (pre ++ ys) z (drop (suc n) rest)
                (subst (IsNewestFirst key) shown sorted)),
          whole,
        )

    rows_of :
        (after : Option Key) (rest : List A)
        → after_key key after (sorted_desc key xs) ≡ rest
        → page key (suc n + 1) after xs ≡ take (suc (suc n)) rest
    unfolding page
    rows_of after rest e = rw (e, add-one)

    next_more :
        (rest : List A) (z : A)
        → last? (take (suc n) rest) ≡ some z
        → suc n < length rest
        → next_key key (suc n) (take (suc (suc n)) rest) ≡ some (key z)
    unfolding next_key
    next_more rest z last more =
        let long =
          lt→ltb (suc n) (length (take (suc (suc n)) rest))
            (omega (arith, length-take (suc (suc n)) rest)) in
        rw (long, take-take (suc n) (suc (suc n)) rest (omega arith), last)

    next_last :
        (rest : List A)
        → length rest ≤ suc n
        → next_key key (suc n) (take (suc (suc n)) rest) ≡ none
    unfolding next_key
    next_last rest all =
        let short =
          ltb-false (suc n) (length (take (suc (suc n)) rest))
            (omega (arith, length-take (suc (suc n)) rest)) in
        rw short

    page_step :
        (fuel : ℕ) (after : Option Key) (rest : List A)
        → after_key key after (sorted_desc key xs) ≡ rest
        → (z : A) → last? (take (suc n) rest) ≡ some z
        → suc n < length rest
        → walk key (suc fuel) (suc n) after xs
          ≡ take (suc n) rest ++ walk key fuel (suc n) (some (key z)) xs
    unfolding walk
    page_step fuel after rest e z last more = rw (
      rows_of after rest e,
      next_more rest z last more,
      take-take (suc n) (suc (suc n)) rest (omega arith),
    )

    last_page :
        (fuel : ℕ) (after : Option Key) (rest : List A)
        → after_key key after (sorted_desc key xs) ≡ rest
        → length rest ≤ suc n
        → walk key (suc fuel) (suc n) after xs ≡ rest
    unfolding walk
    last_page fuel after rest e all =
        rw (rows_of after rest e, next_last rest all)
          (append-nil (take (suc n) (take (suc (suc n)) rest))
            ∙ take-take (suc n) (suc (suc n)) rest (omega arith)
            ∙ take_of_length-le rest (suc n) all)

    walk_from :
        (fuel : ℕ) (after : Option Key) (pre rest : List A)
        → sorted_desc key xs ≡ pre ++ rest
        → after_key key after (sorted_desc key xs) ≡ rest
        → length rest < fuel
        → walk key fuel (suc n) after xs ≡ rest
    walk_from zero after pre rest split e h = absurd (omega arith)
    walk_from (suc fuel) after pre rest split e h = elim (Bool-cases (ltb (suc n) (length rest))) [
      | inl more ↦
          let longer = ltb→lt (suc n) (length rest) more in
          let (z, last, e', split') = rest_of_page pre rest split (omega arith) in
          page_step fuel after rest e z last longer
          ∙ ap (λ r. take (suc n) rest ++ r)
              (walk_from fuel (some (key z)) (pre ++ take (suc n) rest) (drop (suc n) rest) split'
                e' (omega (arith, length-drop (suc n) rest)))
          ∙ take-append-drop (suc n) rest
      | inr all ↦ last_page fuel after rest e (ground arith)
    ]

  -- With distinct keys, pages of at least one record and leave to fetch more pages than there are
  -- records, following the cursors from the start lists the sorted records: each once, in order.
  pub walk_complete :
      (xs : List A) (limit fuel : ℕ)
      → HasDistinctKeys key xs
      → 0 < limit
      → length (sorted_desc key xs) < fuel
      → walk key fuel limit none xs ≡ sorted_desc key xs
  unfolding after_key
  walk_complete xs zero fuel d pos h = absurd (omega arith)
  walk_complete xs (suc n) fuel d pos h =
      walk_from xs (sorted_desc-IsNewestFirst key xs d) n fuel none [] (sorted_desc key xs) refl
        refl h
