-- ===== src/Persistence/Actions/Rows.antt =====
-- What the statements of `finalize` find among rows with distinct ids, beside the in-memory journal.
use github_webhook_monitor.Prelude.{
  String, true, false, ◌≡◌, ◌≢◌, refl, ap, arith, Bool-cases, inl, inr, ==_iff, eq_iff, List, [],
  ◌∷◌, map, All, ◌==◌, str_eq,
}
use github_webhook_monitor.Errors.{
  Result, ok, err, recovery_action_not_found, invalid_recovery_action_transition,
}
use github_webhook_monitor.Domain.RecoveryActions.{RecoveryAction, is_terminal, state_initiated}
use github_webhook_monitor.Storage.RecoveryActions.{Finalization, finalized, finalize_loop}
use github_webhook_monitor.Persistence.Schema.{ActionRow, is_action_state}
use github_webhook_monitor.Persistence.Actions.{
  row_to_recovery_action, finalized_columns, has_id, is_open,
}
use github_webhook_monitor.Persistence.Actions.Documented.{
  HasDistinctIds, matching, with_columns, updated,
}

module _ (f : Finalization) (final : is_terminal f.state ≡ true) where
  abbrev open_rows : List ActionRow → List ActionRow
  open_rows = matching (is_open f.action_id)

  abbrev with_id : List ActionRow → List ActionRow
  with_id = matching (has_id f.action_id)

  abbrev after : List ActionRow → List ActionRow
  after = map (updated (is_open f.action_id) (finalized_columns f))

  abbrev journal_loop : List ActionRow → Result (RecoveryAction × List RecoveryAction)
  journal_loop rows = finalize_loop f (map row_to_recovery_action rows)

  -- The three situations, with what the loop of the in-memory journal does in them.
  pub data Situation (rows : List ActionRow) : Type 0 where
    opened :
        (row : ActionRow)
        → open_rows rows ≡ row ∷ []
        → journal_loop rows
          ≡ ok (finalized f (row_to_recovery_action row), map row_to_recovery_action (after rows))
        → Situation rows
    closed :
        (row : ActionRow)
        → open_rows rows ≡ []
        → after rows ≡ rows
        → with_id rows ≡ row ∷ []
        → journal_loop rows ≡ err invalid_recovery_action_transition
        → Situation rows
    missing :
        open_rows rows ≡ []
        → after rows ≡ rows
        → with_id rows ≡ []
        → journal_loop rows ≡ err recovery_action_not_found
        → Situation rows

  no_match :
      (rows : List ActionRow)
      → All (λ row. f.action_id ≢ row.columns.action_id) rows
      → (open_rows rows ≡ []) × (after rows ≡ rows) × (with_id rows ≡ [])
  no_match [] h = (refl, refl, refl)
  no_match (row ∷ rows) h =
      let (o, a, w) = no_match rows h.1 in
      let other : (row.columns.action_id == f.action_id) ≡ false = ground (arith, h.0) in
      rw other (o, ap (λ rs. row ∷ rs) a, w)

  terminal_if_closed :
      (state : String)
      → is_action_state state ≡ true
      → str_eq state state_initiated ≡ false
      → is_terminal state ≡ true
  unfolding is_action_state is_terminal
  terminal_if_closed state h n = rw n at h

  head_opened :
      (row : ActionRow) (rows : List ActionRow)
      → (row.columns.action_id == f.action_id) ≡ true
      → str_eq row.columns.state state_initiated ≡ true
      → journal_loop (row ∷ rows)
        ≡ ok (
          finalized f (row_to_recovery_action row),
          row_to_recovery_action (with_columns (finalized_columns f) row)
              ∷ map row_to_recovery_action rows,
        )
  unfolding finalize_loop row_to_recovery_action finalized finalized_columns is_terminal
  head_opened row rows same init =
      let state = (eq_iff row.columns.state state_initiated).0 init in rw (same, state, final) refl

  head_closed :
      (row : ActionRow) (rows : List ActionRow)
      → (row.columns.action_id == f.action_id) ≡ true
      → is_terminal row.columns.state ≡ true
      → journal_loop (row ∷ rows) ≡ err invalid_recovery_action_transition
  unfolding finalize_loop row_to_recovery_action
  head_closed row rows same done = rw (same, done) refl

  head_other :
      (row : ActionRow) (rows : List ActionRow)
      → (row.columns.action_id == f.action_id) ≡ false
      → Situation rows
      → Situation (row ∷ rows)
  unfolding finalize_loop row_to_recovery_action
  head_other row rows other (opened r o j) = opened r (rw other o) (rw (other, j) refl)
  head_other row rows other (closed r o a w j) =
      closed r (rw other o) (rw other (ap (λ rs. row ∷ rs) a)) (rw other w) (rw (other, j) refl)
  head_other row rows other (missing o a w j) =
      missing (rw other o) (rw other (ap (λ rs. row ∷ rs) a)) (rw other w) (rw (other, j) refl)

  head_same :
      (row : ActionRow) (rows : List ActionRow)
      → (row.columns.action_id == f.action_id) ≡ true
      → All (λ r. f.action_id ≢ r.columns.action_id) rows
      → is_action_state row.columns.state ≡ true
      → Situation (row ∷ rows)
  head_same row rows same d s =
      let (o, a, w) = no_match rows d in
      elim (Bool-cases (str_eq row.columns.state state_initiated)) [
        | inl init ↦
            opened row (rw (same, init) (ap (λ rs. row ∷ rs) o))
              (rw (same, init, a) (head_opened row rows same init))
        | inr n ↦
            closed row (rw (same, n) o) (rw (same, n) (ap (λ rs. row ∷ rs) a))
              (rw same (ap (λ rs. row ∷ rs) w))
              (head_closed row rows same (terminal_if_closed _ s n))
      ]

  pub classify :
      (rows : List ActionRow)
      → HasDistinctIds rows
      → All (λ row. is_action_state row.columns.state ≡ true) rows
      → Situation rows
  unfolding finalize_loop
  classify [] d s = missing refl refl refl refl
  classify (row ∷ rows) d s = elim (Bool-cases (row.columns.action_id == f.action_id)) [
    | inl same ↦
        let named = (==_iff row.columns.action_id f.action_id).0 same in
        head_same row rows same (rw named at d.0) s.0
    | inr other ↦ head_other row rows other (classify rows d.1 s.1)
  ]
