-- ===== src/Persistence/Actions/Refines.antt =====
-- `finalize` of the PostgreSQL journal, beside the in-memory one.
use github_webhook_monitor.Prelude.{
  true, ◌≡◌, ◌⊎◌, inl, inr, refl, ap, ◌∙◌, sym, arith, Option, none, some, subst, ◌≤◌, List, [],
  ◌∷◌, map, length, All,
}
use github_webhook_monitor.Errors.{
  err-injective, Exn, Result, ok, err, sqlalchemy_error, recovery_action_store_error, ok-injective,
}
use github_webhook_monitor.Domain.RecoveryActions.{RecoveryAction, is_terminal}
use github_webhook_monitor.Storage.RecoveryActions.{finalized, Finalization, finalize_loop}
use github_webhook_monitor.Storage.RecoveryActions.Finalize.{Loop, returned, written}
use github_webhook_monitor.Services.Exec.{pure, bind-ran, bind-raised}
use github_webhook_monitor.Persistence.Schema.{
  ActionColumns, ActionRow, action_checks, is_action_state,
}
use github_webhook_monitor.Persistence.Actions.{
  ActionEngine, row_to_recovery_action, one_or_none, only_row, unmatched, existing_row, decided,
  finalized_columns, finalize_statements, has_id, is_open, action_store_error, finalize,
}
use github_webhook_monitor.Persistence.Actions.Documented.{
  Documented, kept_times, matching, with_columns,
}
use github_webhook_monitor.Persistence.Actions.Rows.{Situation, opened, closed, missing, classify}

only_row-ok :
    (r : Result (List ActionRow)) {p : Option ActionRow × Option ActionRow}
    → unmatched (only_row r) ≡ ok p
    → (out : List ActionRow) × (r ≡ ok out) × (unmatched (one_or_none out) ≡ ok p)
only_row-ok (ok out) h = (out, refl, h)
only_row-ok (err x) h = absurd (ground arith)

one_or_none-err : (out : List ActionRow) {x : Exn} → one_or_none out ≡ err x → x ≡ sqlalchemy_error
unfolding one_or_none
one_or_none-err [] h = absurd (ground arith)
one_or_none-err (row ∷ []) h = absurd (ground arith)
one_or_none-err (row ∷ row' ∷ out) h = sym (err-injective h)

unmatched-err : (r : Result (Option ActionRow)) {x : Exn} → unmatched r ≡ err x → r ≡ err x
unmatched-err (ok row) h = absurd (ground arith)
unmatched-err (err y) h = ap err (err-injective h)

only_row-err :
    (r : Result (List ActionRow)) {x : Exn}
    → only_row r ≡ err x
    → (r ≡ err x) ⊎ (x ≡ sqlalchemy_error)
only_row-err (ok out) h = inr (one_or_none-err out h)
only_row-err (err y) h = inl (ap err (err-injective h))

checked-state :
    (columns : ActionColumns) → action_checks columns ≡ true → is_action_state columns.state ≡ true
unfolding action_checks
checked-state columns h = ground (arith, h)

pub checked-states :
    (rows : List ActionRow)
    → All (λ row. action_checks row.columns ≡ true) rows
    → All (λ row. is_action_state row.columns.state ≡ true) rows
checked-states [] h = tt
checked-states (row ∷ rows) h = (checked-state row.columns h.0, checked-states rows h.1)

module _ (e : ActionEngine) (rows : e.Db → List ActionRow) (doc : Documented e rows)
    (f : Finalization) (final : is_terminal f.state ≡ true) (db : e.Db) where
  -- The actions in the table.
  abbrev pub journal : e.Db → List RecoveryAction
  journal d = map row_to_recovery_action (rows d)

  -- The values, with the time as the database gives it back.
  abbrev g : Finalization
  g = kept_times doc.kept f

  abbrev pub loop : Loop
  loop = finalize_loop g (journal db)

  abbrev Ran : Option ActionRow × Option ActionRow → e.Db → Type 0
  Ran p d = (decided (ok p) ≡ returned loop) × (journal d ≡ written (journal db) loop)

  existing_row-err :
      (row : Option ActionRow) (d : e.Db) {x : Exn}
      → (existing_row e f.action_id row d).0 ≡ err x
      → x ≡ sqlalchemy_error
  unfolding existing_row
  existing_row-err (some row) d h = absurd (ground arith)
  existing_row-err none d {x} h =
      let found = e.select_where (has_id f.action_id) d in
      elim (only_row-err found (unmatched-err (only_row found) h)) [
        | inl failed ↦ doc.select_error (has_id f.action_id) d x failed
        | inr known ↦ known
      ]

  statements-err : {x : Exn} → (finalize_statements e f db).0 ≡ err x → x ≡ sqlalchemy_error
  unfolding finalize_statements
  statements-err {x} h =
      elim (bind-raised (e.update (is_open f.action_id) (finalized_columns f)) _ db h) [
        | inl failed ↦ doc.update_error _ _ db x failed
        | inr (out, ran, h1) ↦ elim (bind-raised (pure (one_or_none out)) _ _ h1) [
          | inl failed ↦ one_or_none-err out failed
          | inr (row, one, h2) ↦ existing_row-err row _ h2
        ]
      ]

  abbrev after_update : e.Db
  after_update = (e.update (is_open f.action_id) (finalized_columns f) db).1

  statements-ok :
      {p : Option ActionRow × Option ActionRow}
      → (finalize_statements e f db).0 ≡ ok p
      → (out : List ActionRow) × (row : Option ActionRow) × ((e.update
            (is_open f.action_id)
            (finalized_columns f)
            db).0
          ≡ ok out)
        × (one_or_none out ≡ ok row)
        × (finalize_statements e f db ≡ existing_row e f.action_id row after_update)
  unfolding finalize_statements
  statements-ok h =
      let (out, ran, run) =
        bind-ran (e.update (is_open f.action_id) (finalized_columns f)) _ db h in
      let (row, one, run') = bind-ran (pure (one_or_none out)) _ after_update (rw run at h) in
      (out, row, ran, one, run ∙ run')

  conclude :
      (p q : Option ActionRow × Option ActionRow) (d : e.Db)
      → finalize_statements e f db ≡ (ok q, d)
      → (finalize_statements e f db).0 ≡ ok p
      → Ran q d
      → Ran p (finalize_statements e f db).1
  conclude p q d run h r =
      let same = ok-injective (sym (ap (λ s. s.0) run) ∙ h) in
      subst (λ s. Ran p (s.1)) (sym run) (subst (λ x. Ran x d) same r)

  -- The rest of the statements, behind the rows that the update returned.
  update_gave :
      (out : List ActionRow) (expected : Option ActionRow) {p : Option ActionRow × Option ActionRow}
      → (e.update (is_open f.action_id) (finalized_columns f) db).0 ≡ ok out
      → one_or_none out ≡ ok expected
      → (finalize_statements e f db).0 ≡ ok p
      → finalize_statements e f db ≡ existing_row e f.action_id expected after_update
  update_gave out expected ran one h =
      let (out', found, ran', one', run) = statements-ok h in
      let same = ok-injective (sym ran ∙ ran') in
      let same_row = ok-injective (sym one' ∙ ap one_or_none (sym same) ∙ one) in
      run ∙ ap (λ x. existing_row e f.action_id x after_update) same_row

  selected_row :
      (d : e.Db) (listed : List ActionRow) (row : Option ActionRow)
      → matching (has_id f.action_id) (rows d) ≡ listed
      → length listed ≤ 1
      → one_or_none listed ≡ ok row
      → {p : Option ActionRow × Option ActionRow} → (existing_row e f.action_id none d).0 ≡ ok p
      → existing_row e f.action_id none d ≡ (ok (none, row), d)
  unfolding existing_row
  selected_row d listed row all few one h =
      let (out, selected, g) = only_row-ok (e.select_where (has_id f.action_id) d) h in
      let same = doc.selected (has_id f.action_id) d out selected (rw all few) ∙ all in
      rw (selected, same, one) refl

  returned_rows :
      (out listed : List ActionRow)
      → (e.update (is_open f.action_id) (finalized_columns f) db).0 ≡ ok out
      → matching (is_open f.action_id) (rows db) ≡ listed
      → length listed ≤ 1
      → out ≡ map (with_columns (finalized_columns g)) listed
  returned_rows out listed ran all few =
      doc.update_returning (is_open f.action_id) f db out ran (rw all few)
      ∙ ap (map (with_columns (finalized_columns g))) all

  statements-Ran :
      (p : Option ActionRow × Option ActionRow)
      → (finalize_statements e f db).0 ≡ ok p
      → Situation g final (rows db)
      → Ran p (finalize_statements e f db).1
  unfolding one_or_none existing_row decided row_to_recovery_action finalized finalized_columns
  statements-Ran p h (opened row o j) =
      let (out, found, ran, one, run) = statements-ok h in
      let now = doc.update_rows (is_open f.action_id) f db out ran in
      let one_row = returned_rows out (row ∷ []) ran o (omega arith) in
      conclude p (some (with_columns (finalized_columns g) row), none) after_update
        (update_gave out (some (with_columns (finalized_columns g) row)) ran (rw one_row refl) h) h
        (rw j refl, rw (now, j) refl)
  statements-Ran p h (closed row o a w j) =
      let (out, found, ran, one, run) = statements-ok h in
      let now = doc.update_rows (is_open f.action_id) f db out ran ∙ a in
      let no_row = returned_rows out [] ran o (omega arith) in
      let rest = update_gave out none ran (rw no_row refl) h in
      conclude p (none, some row) after_update
        (rest
          ∙ selected_row after_update (row ∷ []) (some row) (rw now w) (omega arith) refl
              (sym (ap (λ s. s.0) rest) ∙ h))
        h (rw j refl, rw (now, j) refl)
  statements-Ran p h (missing o a w j) =
      let (out, found, ran, one, run) = statements-ok h in
      let now = doc.update_rows (is_open f.action_id) f db out ran ∙ a in
      let no_row = returned_rows out [] ran o (omega arith) in
      let rest = update_gave out none ran (rw no_row refl) h in
      conclude p (none, none) after_update
        (rest
          ∙ selected_row after_update [] none (rw now w) (omega arith) refl
              (sym (ap (λ s. s.0) rest) ∙ h))
        h (rw j refl, rw (now, j) refl)

  abbrev Refined : Type 0
  Refined =
      (((finalize e f db).0 ≡ returned loop)
        × (journal (finalize e f db).1 ≡ written (journal db) loop))
      ⊎ (((finalize e f db).0 ≡ err recovery_action_store_error)
          × (((finalize e f db).1 ≡ db)
              ⊎ (journal (finalize e f db).1 ≡ written (journal db) loop)))

  statements_done :
      (p : Option ActionRow × Option ActionRow)
      → (finalize_statements e f db).0 ≡ ok p
      → Ran p (finalize_statements e f db).1
  statements_done p h =
      statements-Ran p h
        (classify g final (rows db) (doc.unique db) (checked-states (rows db) (doc.checked db)))

  statements_left :
      (p : Option ActionRow × Option ActionRow)
      → (finalize_statements e f db).0 ≡ ok p
      → journal (finalize_statements e f db).1 ≡ written (journal db) loop
  statements_left p h = (statements_done p h).1

  refined_as :
      (r : Result (Option ActionRow × Option ActionRow))
      → (e.begin (finalize_statements e f) db).0 ≡ r
      → Refined
  unfolding finalize action_store_error
  refined_as (ok p) h =
      let done = doc.committed (finalize_statements e f) db p h in
      let p_ran = ap (λ s. s.0) (sym done) ∙ h in
      let (result, held) = statements_done p p_ran in
      inl (rw (final, h) result, rw (final, done) held)
  refined_as (err x) h =
      let (why, effect) = doc.rolled_back (finalize_statements e f) db x h in
      let known : x ≡ sqlalchemy_error = elim why [
        | inl raised ↦ statements-err raised
        | inr known ↦ known
      ] in
      inr (
        rw (final, h, known) refl,
        elim effect [
          | inl back ↦ inl (rw final back)
          | inr (p, p_ran, done) ↦ inr (rw (final, done) (statements_left p p_ran))
        ],
      )

  -- With a final state and no other transaction at the same time, `finalize` of the PostgreSQL journal
  -- returns or raises what the in-memory journal does on the same actions, and leaves the same actions,
  -- where the time of completion is the same instant in the database session's time zone. Or it raises
  -- the store error, and either changes nothing or, where the COMMIT failed, leaves the actions that the
  -- in-memory journal leaves.
  pub finalize-refines :
      ((doc.kept f.completed_at).instant ≡ f.completed_at.instant)
      × ((((finalize e f db).0 ≡ returned loop)
            × (journal (finalize e f db).1 ≡ written (journal db) loop))
          ⊎ (((finalize e f db).0 ≡ err recovery_action_store_error)
              × (((finalize e f db).1 ≡ db)
                  ⊎ (journal (finalize e f db).1 ≡ written (journal db) loop))))
  finalize-refines = (doc.kept-instant f.completed_at, refined_as _ refl)
