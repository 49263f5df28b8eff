-- ===== src/Persistence/Actions/Documented.antt =====
-- What the store relies on of PostgreSQL and SQLAlchemy while no other transaction runs: isolation is
-- PostgreSQL's default, READ COMMITTED, and what a transaction sees of others is left out.
use github_webhook_monitor.Prelude.{
  ℕ, Bool, true, Option, none, some, ◌≡◌, ◌≢◌, ◌⊎◌, ◌≤◌, List, [], ◌∷◌, map, keep, length, All,
  if◌then◌else◌,
}
use github_webhook_monitor.Errors.{Exn, ok, err, sqlalchemy_error}
use github_webhook_monitor.Domain.Datetime.{Datetime}
use github_webhook_monitor.Storage.RecoveryActions.{Finalization}
use github_webhook_monitor.Storage.Keyset.{Key, page}
use github_webhook_monitor.Storage.Keyset.Sorted.{HasDistinctKeys}
use github_webhook_monitor.Services.Exec.{Exec}
use github_webhook_monitor.Persistence.Schema.{ActionColumns, ActionRow, action_checks}
use github_webhook_monitor.Persistence.Actions.{ActionEngine, finalized_columns}

-- `uq_recovery_actions_action_id`
abbrev pub HasDistinctIds : List ActionRow → Type 0
HasDistinctIds [] = Unit
HasDistinctIds (row ∷ rows) =
    All (λ other. row.columns.action_id ≢ other.columns.action_id) rows × HasDistinctIds rows

abbrev pub matching : (ActionColumns → Bool) → List ActionRow → List ActionRow
matching where_clause rows = keep (λ row. where_clause row.columns) rows

abbrev pub with_columns : (ActionColumns → ActionColumns) → ActionRow → ActionRow
with_columns set row = record row { columns = set row.columns }

abbrev pub updated :
    (ActionColumns → Bool) → (ActionColumns → ActionColumns) → ActionRow → ActionRow
updated where_clause set row = if where_clause row.columns then with_columns set row else row

-- The values of an update, with the time as the database gives it back.
abbrev pub kept_times : (Datetime → Datetime) → Finalization → Finalization
kept_times kept f = record f { completed_at = kept f.completed_at }

abbrev pub kept_time : (Datetime → Datetime) → Option Datetime → Option Datetime
kept_time kept none = none
kept_time kept (some t) = some (kept t)

abbrev pub kept_columns : (Datetime → Datetime) → ActionColumns → ActionColumns
kept_columns kept values = record values {
  requested_at = kept values.requested_at;
  completed_at = kept_time kept values.completed_at;
}

-- `rows db` are the rows of the table, the one with the highest `id` first.
pub record Documented (e : ActionEngine) (rows : e.Db → List ActionRow) : Type 1 where
  -- The value of a `timestamptz` column: the same instant, in the time zone of the session.
  pub kept : Datetime → Datetime
  pub kept-instant : (t : Datetime) → (kept t).instant ≡ t.instant
  -- the constraints of the table hold
  pub checked : (db : e.Db) → All (λ row. action_checks row.columns ≡ true) (rows db)
  pub unique : (db : e.Db) → HasDistinctIds (rows db)
  -- A transaction that returns is committed. One that raises is rolled back, also if the rollback
  -- fails; of one whose COMMIT fails it is not known whether it took effect.
  pub committed :
      {A : Type 0} (t : Exec e.Db A) (db : e.Db) (a : A)
      → (e.begin t db).0 ≡ ok a
      → e.begin t db ≡ t db
  pub rolled_back :
      {A : Type 0} (t : Exec e.Db A) (db : e.Db) (x : Exn)
      → (e.begin t db).0 ≡ err x
      → (((t db).0 ≡ err x) ⊎ (x ≡ sqlalchemy_error))
        × (((e.begin t db).1 ≡ db) ⊎ ((a : A) × ((t db).0 ≡ ok a) × ((e.begin t db).1 ≡ (t db).1)))
  pub inserted :
      (values : ActionColumns) (db : e.Db) (row : ActionRow)
      → (e.insert values db).0 ≡ ok row
      → (row.columns ≡ kept_columns kept values) × (rows ((e.insert values db).1) ≡ row ∷ rows db)
  pub insert_error :
      (values : ActionColumns) (db : e.Db) (x : Exn)
      → (e.insert values db).0 ≡ err x
      → x ≡ sqlalchemy_error
  -- rows come in no order that is promised, which does not matter for one
  pub update_rows :
      (where_clause : ActionColumns → Bool) (f : Finalization)
      → (db : e.Db) (out : List ActionRow)
      → (e.update where_clause (finalized_columns f) db).0 ≡ ok out
      → rows ((e.update where_clause (finalized_columns f) db).1)
        ≡ map (updated where_clause (finalized_columns (kept_times kept f))) (rows db)
  pub update_returning :
      (where_clause : ActionColumns → Bool) (f : Finalization)
      → (db : e.Db) (out : List ActionRow)
      → (e.update where_clause (finalized_columns f) db).0 ≡ ok out
      → length (matching where_clause (rows db)) ≤ 1
      → out
        ≡ map
            (with_columns (finalized_columns (kept_times kept f)))
            (matching where_clause (rows db))
  pub update_error :
      (where_clause : ActionColumns → Bool) (set : ActionColumns → ActionColumns)
      → (db : e.Db) (x : Exn) → (e.update where_clause set db).0 ≡ err x
      → x ≡ sqlalchemy_error
  pub selected :
      (where_clause : ActionColumns → Bool) (db : e.Db) (out : List ActionRow)
      → e.select_where where_clause db ≡ ok out
      → length (matching where_clause (rows db)) ≤ 1
      → out ≡ matching where_clause (rows db)
  pub select_error :
      (where_clause : ActionColumns → Bool) (db : e.Db) (x : Exn)
      → e.select_where where_clause db ≡ err x
      → x ≡ sqlalchemy_error
  pub page_selected :
      (where_clause : ActionColumns → Bool) (order_by : ActionColumns → Key)
      → (limit : ℕ) (db : e.Db) (out : List ActionRow)
      → e.select_page where_clause order_by limit db ≡ ok out
      → HasDistinctKeys (λ row. order_by row.columns) (matching where_clause (rows db))
      → out ≡ page (λ row. order_by row.columns) limit none (matching where_clause (rows db))
  pub page_error :
      (where_clause : ActionColumns → Bool) (order_by : ActionColumns → Key)
      → (limit : ℕ) (db : e.Db) (x : Exn) → e.select_page where_clause order_by limit db ≡ err x
      → x ≡ sqlalchemy_error
