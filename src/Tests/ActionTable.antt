-- ===== src/Tests/ActionTable.antt =====
-- A table `recovery_actions` that keeps its constraints, as an engine for the tests.
use github_webhook_monitor.Prelude.{
  Bool, true, false, ◌≡◌, ◌≢◌, ◌⊎◌, inl, inr, refl, ap, ◌∙◌, sym, arith, Bool-cases, ◌&&◌, not,
  ◌==◌, none, some, pos, List, [], ◌∷◌, map, length, All,
}
use github_webhook_monitor.Errors.{
  Exn, Result, ok, err, sqlalchemy_error, ok-injective, err-injective,
}
use github_webhook_monitor.Domain.Datetime.{Datetime}
use github_webhook_monitor.Storage.Keyset.{page}
use github_webhook_monitor.Persistence.Schema.{ActionColumns, ActionRow, action_checks}
use github_webhook_monitor.Persistence.Actions.{ActionEngine, finalized_columns}
use github_webhook_monitor.Persistence.Actions.Documented.{
  Documented, kept_columns, kept_time, HasDistinctIds, matching, with_columns, updated,
}

abbrev no_other : ActionRow → List ActionRow → Bool
no_other row [] = true
no_other row (other ∷ rows) =
    not (row.columns.action_id == other.columns.action_id) && no_other row rows

-- Every row passes the checks, and no two have the same id.
abbrev pub is_table : List ActionRow → Bool
is_table [] = true
is_table (row ∷ rows) = action_checks row.columns && no_other row rows && is_table rows

abbrev pub Table : Type 0
Table = (rows : List ActionRow) × (is_table rows ≡ true)

abbrev commit {ℓ} : {A : Type ℓ} → Table → Result A × Table → Result A × Table
commit before (ok a, after) = (ok a, after)
commit before (err x, after) = (err x, before)

abbrev write {ℓ} :
    {A : Type ℓ}
    → A
    → (rows : List ActionRow) → Table
    → (is_table rows ≡ true) ⊎ (is_table rows ≡ false)
    → Result A × Table
write a rows db (inl fits) = (ok a, (rows, fits))
write a rows db (inr _) = (err sqlalchemy_error, db)

-- The session's time zone is UTC.
abbrev in_utc : Datetime → Datetime
in_utc t = record { instant = t.instant; utcoffset = some (pos 0) }

abbrev new_row : ActionColumns → Table → ActionRow
new_row values db = record { id = length db.0; columns = kept_columns in_utc values }

abbrev set_in_utc : (ActionColumns → ActionColumns) → ActionColumns → ActionColumns
set_in_utc set columns = record (set columns) {
  completed_at = kept_time in_utc (set columns).completed_at;
}

abbrev pub table_engine : ActionEngine
table_engine = record {
  Db = Table;
  begin = λ t db. commit db (t db);
  insert = λ values db. write (new_row values db) (new_row values db ∷ db.0) db (Bool-cases _);
  update = λ where_clause set db.
      write (map (with_columns (set_in_utc set)) (matching where_clause db.0))
        (map (updated where_clause (set_in_utc set)) db.0) db (Bool-cases _);
  select_where = λ where_clause db. ok (matching where_clause db.0);
  select_page = λ where_clause order_by limit db.
      ok (page (λ row. order_by row.columns) limit none (matching where_clause db.0));
}

checks_of_table :
    (rows : List ActionRow)
    → is_table rows ≡ true
    → All (λ row. action_checks row.columns ≡ true) rows
checks_of_table [] h = tt
checks_of_table (row ∷ rows) h = (ground (arith, h), checks_of_table rows (ground (arith, h)))

no_other-All :
    (row : ActionRow) (rows : List ActionRow)
    → no_other row rows ≡ true
    → All (λ other. row.columns.action_id ≢ other.columns.action_id) rows
no_other-All row [] h = tt
no_other-All row (other ∷ rows) h =
    (λ same. ground (arith, h, same), no_other-All row rows (ground (arith, h)))

distinct : (rows : List ActionRow) → is_table rows ≡ true → HasDistinctIds rows
distinct [] h = tt
distinct (row ∷ rows) h =
    (no_other-All row rows (ground (arith, h)), distinct rows (ground (arith, h)))

module _ {ℓ} {A : Type ℓ} (db : Table) where
  commit-ok : (r : Result A × Table) (a : A) → (commit db r).0 ≡ ok a → commit db r ≡ r
  commit-ok (ok b, after) a h = refl
  commit-ok (err x, after) a h = absurd (ground arith)

  commit-err :
      (r : Result A × Table) (x : Exn)
      → (commit db r).0 ≡ err x
      → ((r.0 ≡ err x) ⊎ (x ≡ sqlalchemy_error))
        × (((commit db r).1 ≡ db) ⊎ ((a : A) × (r.0 ≡ ok a) × ((commit db r).1 ≡ r.1)))
  commit-err (ok b, after) x h = absurd (ground arith)
  commit-err (err y, after) x h = (inl h, inl refl)

  module _ (a : A) (rows : List ActionRow) where
    write-ok :
        (s : (is_table rows ≡ true) ⊎ (is_table rows ≡ false)) (b : A)
        → (write a rows db s).0 ≡ ok b
        → (b ≡ a) × ((write a rows db s).1.0 ≡ rows)
    write-ok (inl fits) b h = (sym (ok-injective h), refl)
    write-ok (inr _) b h = absurd (ground arith)

    write-err :
        (s : (is_table rows ≡ true) ⊎ (is_table rows ≡ false)) (x : Exn)
        → (write a rows db s).0 ≡ err x
        → x ≡ sqlalchemy_error
    write-err (inl fits) x h = absurd (ground arith)
    write-err (inr _) x h = sym (err-injective h)

pub table-Documented : Documented table_engine (λ db. db.0)
unfolding finalized_columns
table-Documented = record {
  kept = in_utc;
  kept-instant = λ t. refl;
  checked = λ db. checks_of_table db.0 db.1;
  unique = λ db. distinct db.0 db.1;
  committed = λ t db a h. commit-ok db (t db) a h;
  rolled_back = λ t db x h. commit-err db (t db) x h;
  inserted = λ values db row h.
      let (same, listed) =
        write-ok db (new_row values db) (new_row values db ∷ db.0) (Bool-cases _) row h in
      (ap (λ r. r.columns) same, listed ∙ ap (λ r. r ∷ db.0) (sym same));
  insert_error = λ values db x h.
      write-err db (new_row values db) (new_row values db ∷ db.0) (Bool-cases _) x h;
  update_rows = λ where_clause f db out h.
      (write-ok db
        (map (with_columns (set_in_utc (finalized_columns f))) (matching where_clause db.0))
        (map (updated where_clause (set_in_utc (finalized_columns f))) db.0) (Bool-cases _) out
        h).1;
  update_returning = λ where_clause f db out h few.
      (write-ok db
        (map (with_columns (set_in_utc (finalized_columns f))) (matching where_clause db.0))
        (map (updated where_clause (set_in_utc (finalized_columns f))) db.0) (Bool-cases _) out
        h).0;
  update_error = λ where_clause set db x h.
      write-err db (map (with_columns (set_in_utc set)) (matching where_clause db.0))
        (map (updated where_clause (set_in_utc set)) db.0) (Bool-cases _) x h;
  selected = λ where_clause db out h few. sym (ok-injective h);
  select_error = λ where_clause db x h. absurd (ground (arith, h));
  page_selected = λ where_clause order_by limit db out h d. sym (ok-injective h);
  page_error = λ where_clause order_by limit db x h. absurd (ground (arith, h));
}
