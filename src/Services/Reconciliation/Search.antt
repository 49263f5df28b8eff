-- ===== src/Services/Reconciliation/Search.antt =====
-- Which pages the search fetches, and what it makes of them.
use native.Mathlib.Nat.{zero-add, suc-add}
use mathlib.Core.List.{append_assoc, append-nil}
use github_webhook_monitor.Prelude.{
  ℕ, zero, suc, ◌+◌, String, true, false, Option, none, some, List, [], ◌++◌, keep, keep-append,
  ◌≡◌, refl, sym, ap, ◌∙◌, inl, inr, Option-cases,
}
use github_webhook_monitor.Errors.{Exn, Result, ok, err}
use github_webhook_monitor.Domain.Datetime.{Uuid}
use github_webhook_monitor.Domain.Deliveries.{DeliveryAttempt}
use github_webhook_monitor.Integrations.GitHub.{GitHubDeliverySummary, GitHubDeliveryPage}
use github_webhook_monitor.Services.Exec.{Exec}
use github_webhook_monitor.Services.Reconciliation.{
  ListDeliveries, GitHubReconciliationResult, is_match, search_pages,
}

-- How a search ends: with the last page of the history, or with the page limit reached at a
-- cursor, or with the exception of a page that could not be fetched.
pub data End : Type 0 where
  finished : End
  more : Option String → End
  failed : Exn → End

-- What the search owes for an end, with the matching deliveries.
unfoldable pub owed :
    DeliveryAttempt
    → (Uuid → Option String → String)
    → List GitHubDeliverySummary
    → End
    → Result GitHubReconciliationResult
owed attempt encode matches finished =
    ok (record { attempt = attempt; matches = matches; search_complete = true; next_cursor = none })
owed attempt encode matches (more cursor) = ok (record {
  attempt = attempt;
  matches = matches;
  search_complete = false;
  next_cursor = some (encode attempt.attempt_id cursor);
})
owed attempt encode matches (failed e) = err e

module _ {W : Type 0} (list_deliveries : ListDeliveries W) (attempt : DeliveryAttempt)
    (owner repository : String) where
  abbrev pub fetch : Option String → Exec W GitHubDeliveryPage
  fetch = list_deliveries owner repository attempt.delivery_identity.hook_id

  -- Fetching at most so many pages, one after another, from a cursor: the deliveries of all the
  -- pages in order, and the end.
  pub data PagesFrom : ℕ → Option String → W → List GitHubDeliverySummary → End → W → Type 0 where
    limit : (cursor : Option String) (w : W) → PagesFrom zero cursor w [] (more cursor) w
    broken :
        (n : ℕ) (cursor : Option String) {w w' : W} {e : Exn}
        → fetch cursor w ≡ (err e, w')
        → PagesFrom (suc n) cursor w [] (failed e) w'
    last :
        (n : ℕ) (cursor : Option String) {w w' : W} {page : GitHubDeliveryPage}
        → fetch cursor w ≡ (ok page, w')
        → page.next_cursor ≡ none
        → PagesFrom (suc n) cursor w page.deliveries finished w'
    next :
        {n : ℕ} (cursor : Option String) {w w' v : W} {page : GitHubDeliveryPage} {c : String}
        {rest : List GitHubDeliverySummary} {end : End}
        → fetch cursor w ≡ (ok page, w')
        → page.next_cursor ≡ some c
        → PagesFrom n (some c) w' rest end v
        → PagesFrom (suc n) cursor w (page.deliveries ++ rest) end v

  module _ (decode : String → Uuid → Result String) (encode : Uuid → Option String → String) where
    abbrev search :
        ℕ → Option String → List GitHubDeliverySummary → Exec W GitHubReconciliationResult
    search = search_pages decode encode list_deliveries attempt owner repository

    -- After fetching some pages, the search returns the matches it started with and then those of
    -- the pages in order: complete, if the last page of the history was fetched, and with a cursor
    -- to go on from, if the page limit was reached; where a page could not be fetched, it raises
    -- that exception.
    pub search_pages-owed :
        {n : ℕ} {cursor : Option String} {w v : W} {deliveries : List GitHubDeliverySummary}
        {end : End} (matches : List GitHubDeliverySummary)
        → PagesFrom n cursor w deliveries end v
        → search n cursor matches w
          ≡ (owed attempt encode (matches ++ keep (is_match attempt) deliveries) end, v)
    unfolding search_pages owed
    search_pages-owed matches (limit cursor w) = rw append-nil
    search_pages-owed matches (broken n cursor e) = rw e
    search_pages-owed matches (last n cursor e none_left) = rw e (rw none_left)
    search_pages-owed matches
          (next cursor {v = v} {page = page} {rest = rest} {end = end} e m pages) =
        rw e (
          rw m (
            search_pages-owed (matches ++ keep (is_match attempt) page.deliveries) pages
            ∙ ap (λ found. (owed attempt encode found end, v))
                (append_assoc matches (keep (is_match attempt) page.deliveries)
                    (keep (is_match attempt) rest)
                  ∙ ap (λ r. matches ++ r)
                      (sym (keep-append (is_match attempt) page.deliveries rest)))))

  abbrev SomePagesFrom : ℕ → Option String → W → Type 0
  SomePagesFrom n cursor w =
      (deliveries : List GitHubDeliverySummary) × (end : End) × (v : W) × PagesFrom n cursor w
        deliveries end v

  PagesFrom_step :
      (n : ℕ) (cursor : Option String) (w : W)
      → ((c : Option String) (v : W) → SomePagesFrom n c v)
      → (r : Result GitHubDeliveryPage × W) → fetch cursor w ≡ r
      → SomePagesFrom (suc n) cursor w
  PagesFrom_step n cursor w later (err x, w') e = ([], failed x, w', broken n cursor e)
  PagesFrom_step n cursor w later (ok page, w') e = elim (Option-cases page.next_cursor) [
    | inl none_left ↦ (page.deliveries, finished, w', last n cursor e none_left)
    | inr (c, m) ↦
        let (rest, end, v, pages) = later (some c) w' in
        (page.deliveries ++ rest, end, v, next cursor e m pages)
  ]

  -- There are always such pages: the search ends after at most `n` fetches.
  pub PagesFrom_total : (n : ℕ) (cursor : Option String) (w : W) → SomePagesFrom n cursor w
  PagesFrom_total zero cursor w = ([], more cursor, w, limit cursor w)
  PagesFrom_total (suc n) cursor w =
      PagesFrom_step n cursor w (λ c v. PagesFrom_total n c v) (fetch cursor w) refl

  -- PagesFrom fetched up to the limit, and then the pages from the cursor reached, are the pages of
  -- one longer search.
  pub PagesFrom-append :
      {n : ℕ} {cursor c : Option String} {w v u : W} {first rest : List GitHubDeliverySummary}
      {end : End} (m : ℕ)
      → PagesFrom n cursor w first (more c) v
      → PagesFrom m c v rest end u
      → PagesFrom (n + m) cursor w (first ++ rest) end u
  PagesFrom-append m (limit cursor w) later = rw (zero-add m) later
  PagesFrom-append m (next cursor e g pages) later =
      rw (suc-add, append_assoc) (next cursor e g (PagesFrom-append m pages later))

  -- A limit of at least one page is reached at a cursor that the last page fetched has given.
  pub cursor_at_limit :
      {n : ℕ} {cursor c : Option String} {w v : W} {deliveries : List GitHubDeliverySummary}
      → PagesFrom (suc n) cursor w deliveries (more c) v
      → (s : String) × (c ≡ some s)
  cursor_at_limit (next cursor {c = c} e g (limit _ _)) = (c, refl)
  cursor_at_limit (next cursor e g (next cursor' e' g' pages)) =
      cursor_at_limit (next cursor' e' g' pages)
