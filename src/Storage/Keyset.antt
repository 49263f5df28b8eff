-- ===== src/Storage/Keyset.antt =====
-- The order by (timestamp, id) that the stores list their records in, newest first, and the
-- list expressions of `list_attempts_page` and `list_recent`.
pub mod Filter
pub mod Sorted
pub mod Walk
use github_webhook_monitor.Prelude.{
  ℕ, zero, suc, ◌+◌, Bool, ◌&&◌, ◌||◌, Option, none, some, List, [], ◌∷◌, ◌++◌, ltb, ◌==◌, take,
  keep, last?, length, if◌then◌else◌,
}

-- `(received_at, attempt_id)`, `(requested_at, action_id)`
abbrev pub Key : Type 0
Key = ℕ × ℕ

-- `<` on such tuples
abbrev pub key_ltb : Key → Key → Bool
key_ltb (a, i) (b, j) = ltb a b || (a == b && ltb i j)

module _ {ℓ} {A : Type ℓ} (key : A → Key) where
  insert_desc : A → List A → List A
  insert_desc x [] = x ∷ []
  insert_desc x (y ∷ ys) = if key_ltb (key x) (key y) then y ∷ insert_desc x ys else x ∷ y ∷ ys

  -- `sorted(xs, key=key, reverse=True)`: stable, so of equal keys the first stays first
  unfoldable pub sorted_desc : List A → List A
  unfolding insert_desc
  sorted_desc [] = []
  sorted_desc (x ∷ xs) = insert_desc x (sorted_desc xs)

  -- `[x for x in xs if key(x) < after]`, if `after` is not None
  unfoldable pub after_key : Option Key → List A → List A
  after_key none xs = xs
  after_key (some k) xs = keep (λ x. key_ltb (key x) k) xs

  -- the whole query: at most `limit` records behind `after`
  unfoldable pub page : ℕ → Option Key → List A → List A
  unfolding sorted_desc after_key
  page limit after xs = take limit (after_key after (sorted_desc xs))

  -- `items = rows[:limit]` of a query for `limit + 1` rows
  abbrev pub page_items : ℕ → List A → List A
  page_items limit rows = take limit rows

  -- the key of `items[-1] if len(rows) > limit and items else None`
  unfoldable pub next_key : ℕ → List A → Option Key
  next_key limit rows =
      if ltb limit (length rows)
      then elim (last? (take limit rows)) [ none ↦ none | some x ↦ some (key x) ]
      else none

  -- A client that follows `next_cursor` until there is none, over at most `fuel` pages.
  unfoldable pub walk : ℕ → ℕ → Option Key → List A → List A
  walk zero limit after xs = []
  walk (suc fuel) limit after xs =
      let rows = page (limit + 1) after xs in
      page_items limit rows
      ++ elim (next_key limit rows) [ none ↦ [] | some k ↦ walk fuel limit (some k) xs ]
