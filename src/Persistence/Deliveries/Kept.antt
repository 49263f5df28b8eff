-- ===== src/Persistence/Deliveries/Kept.antt =====
-- What the delivery store on PostgreSQL gives back of an attempt.
use github_webhook_monitor.Prelude.{
  ℕ, ℤ, String, ◌≡◌, ◌⊎◌, inl, inr, refl, ap, ◌∙◌, sym, subst, arith, Option, none, some, List, [],
  ◌∷◌, keep, ==_iff,
}
use github_webhook_monitor.Errors.{
  Result, ok, err, sqlalchemy_error, delivery_store_error, bind-ok, ok-injective,
}
use github_webhook_monitor.Domain.Datetime.{Datetime}
use github_webhook_monitor.Domain.Deliveries.{DeliveryAttempt}
use github_webhook_monitor.Services.Exec.{continue-ran}
use github_webhook_monitor.Persistence.Schema.{DeliveryRow}
use github_webhook_monitor.Persistence.Actions.{one_or_none}
use github_webhook_monitor.Persistence.Deliveries.{
  DeliveryEngine, JoinedRow, has_attempt_id, installation_target_id_to_db, delivery_attempt_values,
  row_to_delivery_attempt, delivery_store_failure, delivery_id, insert_attempt_of, add_statements,
  add, get_attempt,
}
use github_webhook_monitor.Persistence.Deliveries.Stored.{
  with_target, Storable, scalar_one-ok, one_or_none-some, stored_values, values_of, row-attempt,
}
use github_webhook_monitor.Persistence.Deliveries.Documented.{Documented, delivery_row}

module _ (e : DeliveryEngine) (HasDelivery : e.Db → DeliveryRow → Type 0)
    (joined : e.Db → List JoinedRow) (doc : Documented e HasDelivery joined)
    (attempt : DeliveryAttempt) (storable : Storable attempt) (db : e.Db) where
  abbrev guid : String
  guid = attempt.delivery_identity.delivery_guid

  abbrev hook_id : ℤ
  hook_id = attempt.delivery_identity.hook_id

  -- What the table is after an attempt was added.
  abbrev Added : e.Db → Type 0
  Added db' =
      (target_id : Option ℤ) × (row : JoinedRow) × (installation_target_id_to_db
          attempt.installation_target_id
        ≡ ok target_id)
      × (row.attempt_id ≡ attempt.attempt_id)
      × (row.received_at.instant ≡ attempt.received_at.instant)
      × (row_to_delivery_attempt row ≡ ok (with_target target_id row.received_at attempt))
      × (joined db' ≡ row ∷ joined db)
      × (keep (has_attempt_id attempt.attempt_id) (joined db) ≡ [])

  abbrev inserted_delivery : Result (List ℕ) × e.Db
  inserted_delivery = e.insert_delivery guid hook_id db

  found_delivery :
      (ids : List ℕ) (one : Option ℕ) (id : ℕ)
      → inserted_delivery.0 ≡ ok ids
      → one_or_none ids ≡ ok one
      → delivery_id e attempt one inserted_delivery.1 ≡ ok id
      → HasDelivery inserted_delivery.1 (delivery_row id guid hook_id)
  unfolding delivery_id
  found_delivery ids (some new) id ran first h =
      let same = ok-injective h in
      doc.delivery_inserted guid hook_id db id
        (ran ∙ ap ok (one_or_none-some ids (rw same at first)))
  found_delivery ids none id ran first h =
      let (out, selected, g) =
        bind-ok (e.select_delivery_ids guid hook_id inserted_delivery.1) _ h in
      doc.delivery_selected guid hook_id inserted_delivery.1 id
        (selected ∙ ap ok (scalar_one-ok out g))

  statements-Added : (add_statements e attempt db).0 ≡ ok tt → Added (add_statements e attempt db).1
  unfolding add_statements insert_attempt_of
  statements-Added h =
      let (ids, ran, run) = continue-ran inserted_delivery.0 inserted_delivery.1 _ h in
      let (id, found, run1) = continue-ran _ inserted_delivery.1 _ (rw run at h) in
      let (one, first, g) = bind-ok (one_or_none ids) _ found in
      let (values, made, run2) =
        continue-ran (delivery_attempt_values attempt id) inserted_delivery.1 e.insert_attempt
          (rw (run, run1) at h) in
      let (target_id, to_db, same) = values_of attempt id values made in
      let goes = run ∙ run1 ∙ run2 ∙ ap (λ v. e.insert_attempt v inserted_delivery.1) same in
      let (row, stored, listed, fresh) =
        doc.attempt_inserted (stored_values attempt id target_id) inserted_delivery.1 guid hook_id
          (ap (λ s. s.0) (sym goes) ∙ h) (found_delivery ids one id ran first g) in
      let kept = doc.delivery_kept guid hook_id db ids ran in
      (
        target_id,
        row,
        to_db,
        stored.attempt_id,
        stored.received_at,
        row-attempt attempt storable id target_id row stored,
        ap (λ s. joined (s.1)) goes ∙ listed ∙ ap (λ rs. row ∷ rs) kept,
        sym (ap (keep (has_attempt_id attempt.attempt_id)) kept) ∙ fresh,
      )

  delivery_store_failure-ok : (r : Result (Unit {0})) → delivery_store_failure r ≡ ok tt → r ≡ ok tt
  unfolding delivery_store_failure
  delivery_store_failure-ok (ok u) h = h
  delivery_store_failure-ok (err sqlalchemy_error) h = absurd (ground arith)
  delivery_store_failure-ok (err x) h = absurd (ground (arith, h))

  add-Added : (add e attempt db).0 ≡ ok tt → Added (add e attempt db).1
  unfolding add
  add-Added h =
      let began = delivery_store_failure-ok (e.begin (add_statements e attempt) db).0 h in
      let run = doc.committed (add_statements e attempt) db tt began in
      subst (λ s. Added (s.1)) (sym run) (statements-Added (ap (λ s. s.0) (sym run) ∙ began))

  get-selected :
      (db' : e.Db) (r : Result (List JoinedRow)) (row : JoinedRow) (shown : DeliveryAttempt)
      → e.select_where (has_attempt_id attempt.attempt_id) db' ≡ r
      → keep (has_attempt_id attempt.attempt_id) (joined db') ≡ row ∷ []
      → row_to_delivery_attempt row ≡ ok shown
      → (get_attempt e attempt.attempt_id db' ≡ ok (some shown))
        ⊎ (get_attempt e attempt.attempt_id db' ≡ err delivery_store_error)
  unfolding get_attempt delivery_store_failure one_or_none
  get-selected db' (ok out) row shown h one made =
      let same = doc.selected _ db' out h (rw one (omega arith)) ∙ one in
      inl (rw (h, same, made) refl)
  get-selected db' (err x) row shown h one made =
      let known = doc.select_error _ db' x h in inr (rw (h, known) refl)

  -- With no other transaction at the same time, an attempt whose storing returned, of valid fields and
  -- texts, is found by its id afterwards, with all its fields but two: the time is the same instant,
  -- with an offset that the database gives, and the id of the installation target is the number that
  -- it reads as, printed. Or else the query raises the store error.
  pub get_attempt-add :
      (add e attempt db).0 ≡ ok tt
      → (target_id : Option ℤ) × (received_at : Datetime) × (installation_target_id_to_db
            attempt.installation_target_id
          ≡ ok target_id)
        × (received_at.instant ≡ attempt.received_at.instant)
        × ((get_attempt e attempt.attempt_id (add e attempt db).1
              ≡ ok (some (with_target target_id received_at attempt)))
            ⊎ (get_attempt e attempt.attempt_id (add e attempt db).1 ≡ err delivery_store_error))
  get_attempt-add h =
      let (target_id, row, to_db, named, time, made, listed, fresh) = add-Added h in
      let hit = (==_iff row.attempt_id attempt.attempt_id).1 named in
      let one = ap (keep (has_attempt_id attempt.attempt_id)) listed ∙ rw (hit, fresh) refl in
      (
        target_id,
        row.received_at,
        to_db,
        time,
        get-selected (add e attempt db).1 _ row _ refl one made,
      )
