-- ===== src/Services/Reconciliation/Joined.antt =====
-- Following a reconciliation cursor finds what one longer search would have found.
use github_webhook_monitor.Prelude.{
  subst, ap₂, keep-append, subst₂, keep, ap, ◌∙◌, sym, ◌+◌, [], suc, true, ℕ, String, Option, some,
  List, ◌++◌, ◌≡◌, refl, arith,
}
use github_webhook_monitor.Errors.{err, Result, ok}
use github_webhook_monitor.Domain.Datetime.{Uuid}
use github_webhook_monitor.Domain.Deliveries.{DeliveryAttempt}
use github_webhook_monitor.Integrations.GitHub.{GitHubDeliverySummary}
use github_webhook_monitor.Services.Exec.{Exec, continue}
use github_webhook_monitor.Services.Reconciliation.{
  is_match, search_pages, upstream_cursor_of, repository_coordinates, Exec, reconcile,
  ListDeliveries, GitHubReconciliationResult,
}
use github_webhook_monitor.Services.Reconciliation.Search.{
  PagesFrom_total, cursor_at_limit, PagesFrom-append, PagesFrom, search_pages-owed, End, finished,
  more, failed, owed,
}

-- One result continues another, and both make up the whole.
pub record Joins (first second whole : GitHubReconciliationResult) : Type 0 where
  pub matches : whole.matches ≡ first.matches ++ second.matches
  pub search_complete : whole.search_complete ≡ second.search_complete
  pub next_cursor : whole.next_cursor ≡ second.next_cursor

module _ (attempt : DeliveryAttempt) (encode : Uuid → Option String → String) where
  owed-more :
      (matches : List GitHubDeliverySummary) (end : End) (r : GitHubReconciliationResult)
      (s : String)
      → owed attempt encode matches end ≡ ok r
      → r.next_cursor ≡ some s
      → (c : Option String) × (end ≡ more c)
        × (s ≡ encode attempt.attempt_id c)
        × (r.matches ≡ matches)
  unfolding owed
  owed-more matches finished r s e n = absurd (ground arith)
  owed-more matches (more c) r s e n = (c, refl, ground arith, ground arith)
  owed-more matches (failed x) r s e n = absurd (ground arith)

  owed-Joins :
      (first second : List GitHubDeliverySummary) (end : End) (r1 r2 : GitHubReconciliationResult)
      → r1.matches ≡ first
      → owed attempt encode second end ≡ ok r2
      → (r : GitHubReconciliationResult) × (owed attempt encode (first ++ second) end ≡ ok r)
        × Joins r1 r2 r
  unfolding owed
  owed-Joins first second finished r1 r2 m e = (
    _,
    refl,
    record { matches = ground arith; search_complete = ground arith; next_cursor = ground arith },
  )
  owed-Joins first second (more c) r1 r2 m e = (
    _,
    refl,
    record { matches = ground arith; search_complete = ground arith; next_cursor = ground arith },
  )
  owed-Joins first second (failed x) r1 r2 m e = absurd (ground arith)

module _ {W : Type 0} (decode : String → Uuid → Result String)
    (encode : Uuid → Option String → String) (list_deliveries : ListDeliveries W)
    (attempt : DeliveryAttempt) where
  abbrev run : ℕ → Option String → Exec W GitHubReconciliationResult
  run n cursor = reconcile decode encode list_deliveries true true n attempt cursor

  abbrev pages_of : ℕ → String × String → Option String → Exec W GitHubReconciliationResult
  pages_of n parts c = search_pages decode encode list_deliveries attempt (parts.0) (parts.1) n c []

  abbrev start : Option String → Result (Option String)
  start = upstream_cursor_of decode encode list_deliveries attempt

  abbrev steps :
      ℕ → Result (String × String) → Result (Option String) → Exec W GitHubReconciliationResult
  steps n coordinates cursor w =
      continue coordinates w λ parts w'. continue cursor w' (pages_of n parts)

  run-steps :
      (n : ℕ) (cursor : Option String) (w : W)
      → run n cursor w ≡ steps n (repository_coordinates attempt) (start cursor) w
  unfolding reconcile
  run-steps n cursor w = refl

  steps-inv :
      (n : ℕ) (w v : W) (r : GitHubReconciliationResult) (coordinates : Result (String × String))
      (cursor : Result (Option String))
      → steps n coordinates cursor w ≡ (ok r, v)
      → (parts : String × String) × (c : Option String) × (coordinates ≡ ok parts)
        × (cursor ≡ ok c)
        × (pages_of n parts c w ≡ (ok r, v))
  steps-inv n w v r (ok parts) (ok c) h = (parts, c, refl, refl, h)
  steps-inv n w v r (ok parts) (err e) h = absurd (ground arith)
  steps-inv n w v r (err e) cursor h = absurd (ground arith)

  -- A cursor that is decoded is decoded to what it was made from.
  abbrev RoundTrip : Type 0
  RoundTrip =
      (c found : String)
      → decode (encode attempt.attempt_id (some c)) attempt.attempt_id ≡ ok found
      → found ≡ c

  start_found :
      (k : String) (r : Result String) (c : Option String)
      → ((found : String) → r ≡ ok found → found ≡ k)
      → decode (encode attempt.attempt_id (some k)) attempt.attempt_id ≡ r
      → start (some (encode attempt.attempt_id (some k))) ≡ ok c
      → start (some (encode attempt.attempt_id (some k))) ≡ ok (some k)
  start_found k (ok found) c same e h = ground (arith, e, same found refl)
  start_found k (err x) c same e h = absurd (ground (arith, e, h))

  start_decoded :
      (k : String) (c : Option String)
      → RoundTrip
      → start (some (encode attempt.attempt_id (some k))) ≡ ok c
      → start (some (encode attempt.attempt_id (some k))) ≡ ok (some k)
  start_decoded k c round_trip h =
      start_found k (decode (encode attempt.attempt_id (some k)) attempt.attempt_id) c
        (λ found e. round_trip k found e) refl h

  -- What a run from the cursor `k` adds to `r1`.
  abbrev Continues :
      ℕ → String × String → Option String → W → W → GitHubReconciliationResult → String → Type 0
  Continues n parts c w v r1 k =
      (m : ℕ) (r2 : GitHubReconciliationResult) (u : W)
      → pages_of m parts (some k) v ≡ (ok r2, u)
      → (r : GitHubReconciliationResult) × (pages_of (suc n + m) parts c w ≡ (ok r, u))
        × Joins r1 r2 r

  abbrev Fetched :
      ℕ → String × String → Option String → W → List GitHubDeliverySummary → End → W → Type 0
  Fetched n parts = PagesFrom list_deliveries attempt (parts.0) (parts.1) n

  ran :
      {n : ℕ} (parts : String × String) {c : Option String} {w v : W}
      {ds : List GitHubDeliverySummary} {end : End}
      → Fetched n parts c w ds end v
      → pages_of n parts c w ≡ (owed attempt encode (keep (is_match attempt) ds) end, v)
  ran parts pages =
      search_pages-owed list_deliveries attempt (parts.0) (parts.1) decode encode [] pages

  continue_pages :
      (n m : ℕ) (parts : String × String) (c : Option String) (w v u u' : W)
      (r1 r2 : GitHubReconciliationResult) (ds ds' : List GitHubDeliverySummary) (k : String)
      (end : End)
      → Fetched (suc n) parts c w ds (more (some k)) v
      → r1.matches ≡ keep (is_match attempt) ds
      → Fetched m parts (some k) v ds' end u'
      → pages_of m parts (some k) v ≡ (ok r2, u)
      → (r : GitHubReconciliationResult) × (pages_of (suc n + m) parts c w ≡ (ok r, u))
        × Joins r1 r2 r
  continue_pages n m parts c w v u u' r1 r2 ds ds' k end pages matched pages' found =
      let both = sym (ran parts pages') ∙ found in
      let (r, owes, joins) =
        owed-Joins attempt encode (keep (is_match attempt) ds) (keep (is_match attempt) ds') end r1
          r2 matched (ap (λ p. p.0) both) in
      let whole =
        ran parts (PagesFrom-append list_deliveries attempt (parts.0) (parts.1) m pages pages') in
      (
        r,
        whole
            ∙ ap (λ found. (owed attempt encode found end, u'))
                (keep-append (is_match attempt) ds ds')
            ∙ ap₂ (λ (o : Result GitHubReconciliationResult) (z : W). (o, z)) owes
                (ap (λ p. p.1) both),
        joins,
      )

  pages_resume :
      (n : ℕ) (parts : String × String) (c : Option String) (w v v' : W)
      (r1 : GitHubReconciliationResult) (s : String) (ds : List GitHubDeliverySummary) (end : End)
      → Fetched (suc n) parts c w ds end v'
      → pages_of (suc n) parts c w ≡ (ok r1, v)
      → r1.next_cursor ≡ some s
      → (k : String) × (s ≡ encode attempt.attempt_id (some k))
        × (r1.matches ≡ keep (is_match attempt) ds)
        × Fetched (suc n) parts c w ds (more (some k)) v
  pages_resume n parts c w v v' r1 s ds end pages found limit =
      let both = sym (ran parts pages) ∙ found in
      let (c0, at_limit, made, matched) =
        owed-more attempt encode (keep (is_match attempt) ds) end r1 s (ap (λ p. p.0) both) limit in
      let limited = subst₂ (Fetched (suc n) parts c w ds) at_limit (ap (λ p. p.1) both) pages in
      let (k, given) = cursor_at_limit list_deliveries attempt (parts.0) (parts.1) limited in
      (
        k,
        made ∙ ap (encode attempt.attempt_id) given,
        matched,
        subst (λ (q : Option String). Fetched (suc n) parts c w ds (more q) v) given limited,
      )

  join_runs :
      (n m : ℕ) (cursor c : Option String) (w v u : W) (r1 r2 : GitHubReconciliationResult)
      (parts : String × String) (k : String) (ds : List GitHubDeliverySummary)
      → repository_coordinates attempt ≡ ok parts
      → start cursor ≡ ok c
      → start (some (encode attempt.attempt_id (some k))) ≡ ok (some k)
      → Fetched (suc n) parts c w ds (more (some k)) v
      → r1.matches ≡ keep (is_match attempt) ds
      → run m (some (encode attempt.attempt_id (some k))) v ≡ (ok r2, u)
      → (ds' : List GitHubDeliverySummary) × (end : End) × (u' : W) × Fetched m parts
          (some k)
          v
          ds'
          end
          u'
      → (r : GitHubReconciliationResult) × (run (suc n + m) cursor w ≡ (ok r, u)) × Joins r1 r2 r
  join_runs n m cursor c w v u r1 r2 parts k ds coordinates first second pages matched h
        (ds', end, u', pages') =
      let found =
        sym (ap₂ (λ a b. steps m a b v) coordinates second)
        ∙ sym (run-steps m (some (encode attempt.attempt_id (some k))) v)
        ∙ h in
      let (r, whole, joins) =
        continue_pages n m parts c w v u u' r1 r2 ds ds' k end pages matched pages' found in
      (
        r,
        run-steps (suc n + m) cursor w
            ∙ ap₂ (λ a b. steps (suc n + m) a b w) coordinates first
            ∙ whole,
        joins,
      )

  pub resumed :
      (n m : ℕ) (cursor : Option String) (s : String) (w v u : W)
      (r1 r2 : GitHubReconciliationResult)
      → RoundTrip
      → run (suc n) cursor w ≡ (ok r1, v)
      → r1.next_cursor ≡ some s
      → run m (some s) v ≡ (ok r2, u)
      → (r : GitHubReconciliationResult) × (run (suc n + m) cursor w ≡ (ok r, u)) × Joins r1 r2 r
  resumed n m cursor s w v u r1 r2 round_trip h1 limit h2 =
      let (parts, c, coordinates, first, found) =
        steps-inv (suc n) w v r1 (repository_coordinates attempt) (start cursor)
          (sym (run-steps (suc n) cursor w) ∙ h1) in
      let (ds, end, v', pages) =
        PagesFrom_total list_deliveries attempt (parts.0) (parts.1) (suc n) c w in
      let (k, made, matched, limited) =
        pages_resume n parts c w v v' r1 s ds end pages found limit in
      let again = subst (λ t. run m (some t) v ≡ (ok r2, u)) made h2 in
      let (parts', c', coordinates', second, found') =
        steps-inv m v u r2 (repository_coordinates attempt)
          (start (some (encode attempt.attempt_id (some k))))
          (sym (run-steps m (some (encode attempt.attempt_id (some k))) v) ∙ again) in
      join_runs n m cursor c w v u r1 r2 parts k ds coordinates first
        (start_decoded k c' round_trip second) limited matched again
        (PagesFrom_total list_deliveries attempt (parts.0) (parts.1) m (some k) v)
