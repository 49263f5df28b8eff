-- ===== src/Services/Redelivery/Verified.antt =====
-- Which requests reach the journal and GitHub.
use github_webhook_monitor.Prelude.{
  ℕ, ℤ, String, Bool, true, false, ◌&&◌, ◌≡◌, refl, sym, ap, ◌∙◌, subst, inl, inr, Option, none,
  some, List, [], ◌∷◌, keep, find, All, str_eq, eq_ℤ, eq_ℤ→eq, arith, Bool-cases,
}
use github_webhook_monitor.Errors.{Exn, Result, ok, err}
use github_webhook_monitor.Domain.Datetime.{Uuid}
use github_webhook_monitor.Domain.Deliveries.{DeliveryAttempt}
use github_webhook_monitor.Domain.Management.{ManagementAuthorization, recovery_execute}
use github_webhook_monitor.Integrations.GitHub.{GitHubDeliverySummary}
use github_webhook_monitor.Storage.RecoveryActions.{RecoveryActionStore}
use github_webhook_monitor.Services.Exec.{continue}
use github_webhook_monitor.Services.Reconciliation.{
  ListDeliveries, GitHubReconciliationResult, is_match, repository_coordinates, search_pages,
  reconcile,
}
use github_webhook_monitor.Services.Reconciliation.Search.{
  End, finished, more, failed, owed, search_pages-owed, PagesFrom_total,
}
use github_webhook_monitor.Services.Redelivery.{
  World, RequestRedelivery, GitHubRedeliveryResult, Draws, submit, submit_if_verified,
  verify_and_submit, request_redelivery,
}

module _ {A : Type 0} (p : A → Bool) where
  find-true : (xs : List A) (x : A) → find p xs ≡ some x → p x ≡ true
  find-true [] x h = absurd (ground arith)
  find-true (y ∷ ys) x h = ground (arith, find-true ys x)

  find-All : (Q : A → Type 0) (xs : List A) (x : A) → find p xs ≡ some x → All Q xs → Q x
  find-All Q [] x h q = absurd (ground arith)
  find-All Q (y ∷ ys) x h q = elim (Bool-cases (p y)) [
    | inl e ↦ subst Q (ground (arith, e)) (q.0)
    | inr e ↦ find-All Q ys x (ground (arith, e)) (q.1)
  ]

  keep-All : (xs : List A) → All (λ x. p x ≡ true) (keep p xs)
  keep-All [] = tt
  keep-All (x ∷ xs) = elim (Bool-cases (p x)) [
    | inl e ↦ rw e (e, keep-All xs)
    | inr e ↦ rw e (keep-All xs)
  ]

abbrev pub AllMatch : DeliveryAttempt → List GitHubDeliverySummary → Type 0
AllMatch attempt = All (λ d. is_match attempt d ≡ true)

owed-matches :
    (attempt : DeliveryAttempt) (encode : Uuid → Option String → String)
    (matches : List GitHubDeliverySummary) (end : End) (r : GitHubReconciliationResult)
    → owed attempt encode matches end ≡ ok r
    → r.matches ≡ matches
unfolding owed
owed-matches attempt encode matches finished r h = ground arith
owed-matches attempt encode matches (more c) r h = ground arith
owed-matches attempt encode matches (failed x) r h = absurd (ground arith)

module _ {W : Type 0} (decode : String → Uuid → Result String)
    (encode : Uuid → Option String → String) (list_deliveries : ListDeliveries W)
    (attempt : DeliveryAttempt) where
  search_pages-AllMatch :
      (owner repository : String) (n : ℕ) (cursor : Option String) (w : W)
      (r : GitHubReconciliationResult)
      → (search_pages decode encode list_deliveries attempt owner repository n cursor [] w).0 ≡ ok r
      → AllMatch attempt r.matches
  search_pages-AllMatch owner repository n cursor w r h =
      let (deliveries, end, v, pages) =
        PagesFrom_total list_deliveries attempt owner repository n cursor w in
      subst (AllMatch attempt)
        (sym (
          owed-matches attempt encode (keep (is_match attempt) deliveries) end r (
            sym (
              ap (λ p. p.0)
                (search_pages-owed list_deliveries attempt owner repository decode encode [] pages))
            ∙ h)))
        (keep-All (is_match attempt) deliveries)

  search_from :
      (max_pages : ℕ) (w : W) (r : GitHubReconciliationResult)
      (coordinates : Result (String × String))
      → (continue coordinates w λ parts.
          search_pages decode encode list_deliveries attempt
            (parts.0)
            (parts.1)
            max_pages
            none
            []).0
        ≡ ok r
      → AllMatch attempt r.matches
  search_from max_pages w r (ok parts) h =
      search_pages-AllMatch (parts.0) (parts.1) max_pages none w r h
  search_from max_pages w r (err e) h = absurd (ground arith)

  -- Every match that a reconciliation from the start returns has the delivery GUID of the attempt.
  pub reconcile-AllMatch :
      (enabled has_client : Bool) (max_pages : ℕ) (w : W) (r : GitHubReconciliationResult)
      → (reconcile decode encode list_deliveries enabled has_client max_pages attempt none w).0
        ≡ ok r
      → AllMatch attempt r.matches
  unfolding reconcile
  reconcile-AllMatch false c max_pages w r h = absurd (ground arith)
  reconcile-AllMatch true false max_pages w r h = absurd (ground arith)
  reconcile-AllMatch true true max_pages w r h =
      search_from max_pages w r (repository_coordinates attempt) h

module _ (E : Type 0) (journal : RecoveryActionStore) (decode : String → Uuid → Result String)
    (encode : Uuid → Option String → String) (list_deliveries : ListDeliveries (World E journal))
    (request : RequestRedelivery (World E journal)) (draws : Draws) (attempt : DeliveryAttempt)
    (github_delivery_id : ℤ) (authorization : ManagementAuthorization)
    (reconciliation_enabled has_deliveries_client : Bool) (max_pages : ℕ)
    (w : World E journal) where
  abbrev searched_from : World E journal → Result GitHubReconciliationResult × World E journal
  searched_from =
      reconcile decode encode list_deliveries reconciliation_enabled has_deliveries_client max_pages
        attempt none

  abbrev searched : Result GitHubReconciliationResult × World E journal
  searched = searched_from w

  -- What a request may come to.
  pub data Ran (enabled has_client : Bool)
      : Result GitHubRedeliveryResult × World E journal → Type 0 where
    refused : (x : Exn) → Ran enabled has_client (err x, w)
    unverified : (x : Exn) → Ran enabled has_client (err x, searched.1)
    verified :
        (parts : String × String) (result : GitHubReconciliationResult)
        (delivery : GitHubDeliverySummary)
        → (enabled && has_client) ≡ true
        → str_eq authorization.capability recovery_execute ≡ true
        → repository_coordinates attempt ≡ ok parts
        → searched.0 ≡ ok result
        → find (λ d. eq_ℤ d.github_delivery_id github_delivery_id) result.matches ≡ some delivery
        → delivery.github_delivery_id ≡ github_delivery_id
        → is_match attempt delivery ≡ true
        → Ran enabled has_client (
            submit E journal decode encode list_deliveries request draws attempt github_delivery_id
              authorization parts searched.1)

  abbrev asked : Bool → Bool → Result GitHubRedeliveryResult × World E journal
  asked enabled has_client =
      request_redelivery E journal decode encode list_deliveries request draws attempt
        github_delivery_id authorization enabled has_client reconciliation_enabled
        has_deliveries_client max_pages w

  abbrev Permitted : Type 0
  Permitted = str_eq authorization.capability recovery_execute ≡ true

  from_match :
      (parts : String × String) (result : GitHubReconciliationResult)
      → Permitted
      → repository_coordinates attempt ≡ ok parts
      → searched.0 ≡ ok result
      → (o : Option GitHubDeliverySummary)
      → find (λ d. eq_ℤ d.github_delivery_id github_delivery_id) result.matches ≡ o
      → Ran true true (
          submit_if_verified E journal decode encode list_deliveries request draws attempt
            github_delivery_id authorization parts o searched.1)
  unfolding submit_if_verified
  from_match parts result p c s none h = unverified _
  from_match parts result p c s (some d) h =
      verified parts result d refl p c s h (eq_ℤ→eq _ _ (find-true _ result.matches d h)) (
        find-All _ (λ d. is_match attempt d ≡ true) result.matches d h
          (reconcile-AllMatch decode encode list_deliveries attempt _ _ max_pages w result s))

  from_search :
      (parts : String × String)
      → Permitted
      → repository_coordinates attempt ≡ ok parts
      → (r : Result GitHubReconciliationResult) → searched.0 ≡ r
      → Ran true true (
          continue r searched.1 (
            verify_and_submit E journal decode encode list_deliveries request draws attempt
              github_delivery_id authorization parts))
  from_search parts p c (ok result) s = from_match parts result p c s _ refl
  from_search parts p c (err x) s = unverified x

  from_coordinates :
      Permitted
      → (r : Result (String × String)) → repository_coordinates attempt ≡ r
      → Ran true true (
          continue r w λ parts w'. continue (searched_from w').0 (searched_from w').1 (
            verify_and_submit E journal decode encode list_deliveries request draws attempt
              github_delivery_id authorization parts))
  from_coordinates p (ok parts) c = from_search parts p c _ refl
  from_coordinates p (err x) c = refused x

  -- A request is refused with the world as it was, or is not verified and leaves the world as the
  -- search has left it, or is submitted from there. It is submitted only if redelivery is enabled
  -- with a client, the authorization is for recovery, the attempt names a repository, and the
  -- search returned a delivery with the requested id and the GUID of the attempt.
  pub request_redelivery-Ran :
      (enabled has_client : Bool) → Ran enabled has_client (asked enabled has_client)
  unfolding request_redelivery
  request_redelivery-Ran false c = refused _
  request_redelivery-Ran true false = refused _
  request_redelivery-Ran true true =
      elim (Bool-cases (str_eq authorization.capability recovery_execute)) [
        | inl e ↦ rw e (from_coordinates e (repository_coordinates attempt) refl)
        | inr e ↦ rw e (refused _)
      ]
