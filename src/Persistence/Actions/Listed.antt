-- ===== src/Persistence/Actions/Listed.antt =====
-- The queries and `create_initiated_github_redelivery` of the PostgreSQL journal, beside the
-- in-memory one.
use github_webhook_monitor.Prelude.{
  ℕ, Bool, ◌≡◌, ◌≢◌, ◌⊎◌, inl, inr, refl, ap, ◌∙◌, Bool-cases, Option, none, some, List, [], ◌∷◌,
  map, keep, take, All, All-keep,
}
use github_webhook_monitor.Errors.{Result, ok, err, recovery_action_store_error}
use github_webhook_monitor.Storage.Keyset.{Key, key_ltb, sorted_desc, after_key, page}
use github_webhook_monitor.Storage.Keyset.Sorted.{HasDistinctKeys}
use github_webhook_monitor.Storage.Keyset.Filter.{
  sorted_desc-keep, map-sorted_desc, map-take, map-keep,
}
use github_webhook_monitor.Storage.RecoveryActions.{action_key}
use github_webhook_monitor.Persistence.Schema.{ActionRow}
use github_webhook_monitor.Persistence.Actions.{
  ActionEngine, row_to_recovery_action, columns_key, is_after, actions_of, action_store_error,
  list_recent,
}
use github_webhook_monitor.Persistence.Actions.Documented.{Documented, HasDistinctIds, matching}

abbrev row_key : ActionRow → Key
row_key row = columns_key row.columns

keep-HasDistinctKeys :
    (p : ActionRow → Bool) (rows : List ActionRow)
    → HasDistinctKeys row_key rows
    → HasDistinctKeys row_key (keep p rows)
keep-HasDistinctKeys p [] d = tt
keep-HasDistinctKeys p (row ∷ rows) d = elim (Bool-cases (p row)) [
  | inl k ↦
      rw k (
        All-keep (λ other. row_key row ≢ row_key other) p rows d.0,
        keep-HasDistinctKeys p rows d.1,
      )
  | inr k ↦ rw k (keep-HasDistinctKeys p rows d.1)
]

other_keys :
    (row : ActionRow) (rows : List ActionRow)
    → All (λ other. row.columns.action_id ≢ other.columns.action_id) rows
    → All (λ other. row_key row ≢ row_key other) rows
other_keys row [] h = tt
other_keys row (other ∷ rows) h = (λ same. h.0 (ap (λ k. k.1) same), other_keys row rows h.1)

distinct_keys : (rows : List ActionRow) → HasDistinctIds rows → HasDistinctKeys row_key rows
distinct_keys [] d = tt
distinct_keys (row ∷ rows) d = (other_keys row rows d.0, distinct_keys rows d.1)

keep-after_key :
    (after : Option Key) (rows : List ActionRow)
    → map row_to_recovery_action (matching (is_after after) rows)
      ≡ after_key action_key after (map row_to_recovery_action rows)
unfolding after_key row_to_recovery_action
keep-after_key none [] = refl
keep-after_key none (row ∷ rows) =
    ap (λ xs. row_to_recovery_action row ∷ xs) (keep-after_key none rows)
keep-after_key (some after) rows =
    map-keep row_to_recovery_action (λ a. key_ltb (action_key a) after) rows

page_rows :
    (limit : ℕ) (after : Option Key) (rows : List ActionRow)
    → HasDistinctIds rows
    → map row_to_recovery_action (page row_key limit none (matching (is_after after) rows))
      ≡ page action_key limit after (map row_to_recovery_action rows)
unfolding page row_to_recovery_action after_key
page_rows limit after rows d =
    let sorted = map-sorted_desc row_to_recovery_action action_key rows in
    map-take row_to_recovery_action limit (sorted_desc row_key (matching (is_after after) rows))
    ∙ ap (λ xs. take limit (map row_to_recovery_action xs))
        (sorted_desc-keep row_key (λ row. is_after after row.columns) rows (distinct_keys rows d))
    ∙ ap (take limit) (keep-after_key after (sorted_desc row_key rows))
    ∙ ap (λ xs. take limit (after_key action_key after xs)) sorted

module _ (e : ActionEngine) (rows : e.Db → List ActionRow) (doc : Documented e rows) where
  page_as :
      (limit : ℕ) (after : Option Key) (db : e.Db) (r : Result (List ActionRow))
      → e.select_page (is_after after) columns_key limit db ≡ r
      → (actions_of (action_store_error r)
          ≡ ok (page action_key limit after (map row_to_recovery_action (rows db))))
        ⊎ (actions_of (action_store_error r) ≡ err recovery_action_store_error)
  unfolding action_store_error
  page_as limit after db (ok out) h =
      let listed = doc.page_selected (is_after after) columns_key limit db out h (
        keep-HasDistinctKeys (λ row. is_after after row.columns) (rows db)
          (distinct_keys (rows db) (doc.unique db))) in
      inl (rw listed (ap ok (page_rows limit after (rows db) (doc.unique db))))
  page_as limit after db (err x) h =
      let known = doc.page_error (is_after after) columns_key limit db x h in inr (rw known refl)

  -- A page of the PostgreSQL journal is the one that the in-memory journal gives for the actions in
  -- the table, or the store error is raised.
  pub list_recent-page :
      (limit : ℕ) (after : Option Key) (db : e.Db)
      → (list_recent e limit after db
          ≡ ok (page action_key limit after (map row_to_recovery_action (rows db))))
        ⊎ (list_recent e limit after db ≡ err recovery_action_store_error)
  unfolding list_recent
  list_recent-page limit after db = page_as limit after db _ refl
