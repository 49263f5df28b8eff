-- ===== src/Tests/Reconciliation.antt =====
-- The reconciliation theorems at concrete inputs.
use github_webhook_monitor.Prelude.{
  ℕ, Bool, ℤ, ◌+◌, String, true, Option, none, some, [], ◌∷◌, ◌++◌, keep, ◌≡◌, ◌↔◌, refl, sym,
  subst, ◌<>◌, is_space, all_chars, split_once,
}
use github_webhook_monitor.Errors.{Result, ok, err}
use github_webhook_monitor.Domain.Datetime.{Uuid}
use github_webhook_monitor.Integrations.GitHub.{GitHubDeliveryPage}
use github_webhook_monitor.Services.Exec.{Exec, continue}
use github_webhook_monitor.Services.Reconciliation.{
  GitHubReconciliationResult, is_match, is_name_part, is_name_char, full_name_parts, checked_parts,
  coordinates_of, repository_coordinates, search_pages, reconcile,
}
use github_webhook_monitor.Services.Reconciliation.Coordinates.{full_name_parts_iff}
use github_webhook_monitor.Services.Reconciliation.Search.{
  last, next, finished, owed, search_pages-owed,
}
use github_webhook_monitor.Services.Reconciliation.Joined.{Joins}
use github_webhook_monitor.Services.Reconciliation.Resume.{reconcile-resume}
use github_webhook_monitor.Services.Cursors.{
  encode_reconciliation_cursor, decode_reconciliation_cursor,
}
use github_webhook_monitor.Services.Cursors.RoundTrip.{reconciliation-round_trip}
use github_webhook_monitor.Tests.Texts.{library, library-Documented}
use github_webhook_monitor.Tests.Data.{attempt, summary}

abbrev owner : String
owner = "octo"

abbrev repository : String
repository = "hello"

full_name_parts_iff_example : (full_name_parts "octo/hello" ≡ some (owner, repository)) ↔ (
    ("octo/hello" ≡ owner <> ("/" <> repository))
    × (is_name_part owner ≡ true)
    × (is_name_part repository ≡ true))
full_name_parts_iff_example = full_name_parts_iff "octo/hello" owner repository

-- Two pages: the second has the match.
abbrev pub first_page : GitHubDeliveryPage
first_page = record { deliveries = summary 41 "guid-0" ∷ []; next_cursor = some "c1" }

abbrev pub second_page : GitHubDeliveryPage
second_page = record { deliveries = summary 42 "guid-1" ∷ []; next_cursor = none }

abbrev pub two_pages : Option String → GitHubDeliveryPage
two_pages none = first_page
two_pages (some cursor) = second_page

abbrev pub list_two {ℓ} :
    {W : Type ℓ} → String → String → ℤ → Option String → Exec W GitHubDeliveryPage
list_two o r hook_id cursor w = (ok (two_pages cursor), w)

abbrev pub decode_plain : String → Uuid → Result String
decode_plain s id = ok s

abbrev pub encode_plain : Uuid → Option String → String
encode_plain id none = ""
encode_plain id (some s) = s

search_pages-owed_example :
    search_pages decode_plain encode_plain list_two (attempt 1 10) "octo" "hello" 5 none [] tt ≡ (
      owed
          (attempt 1 10)
          encode_plain
          ([] ++ keep (is_match (attempt 1 10)) (summary 41 "guid-0" ∷ summary 42 "guid-1" ∷ []))
          finished,
      tt,
    )
search_pages-owed_example =
    search_pages-owed {W = Unit {0}} list_two (attempt 1 10) "octo" "hello" decode_plain
      encode_plain [] (next {n = 4} none refl refl (last 3 (some "c1") refl refl))

-- The cursor behind the first page.
abbrev behind_first : String
behind_first = encode_reconciliation_cursor library 1 (some "c1")

abbrev found_first : GitHubReconciliationResult
found_first = record {
  attempt = attempt 1 10;
  matches = [];
  search_complete = Bool.false;
  next_cursor = some behind_first;
}

abbrev found_second : GitHubReconciliationResult
found_second = record {
  attempt = attempt 1 10;
  matches = summary 42 "guid-1" ∷ [];
  search_complete = Bool.true;
  next_cursor = none;
}

abbrev run_pages : ℕ → Option String → Unit {0} → Result GitHubReconciliationResult × Unit {0}
run_pages n cursor =
    reconcile (decode_reconciliation_cursor library) (encode_reconciliation_cursor library) list_two
      Bool.true Bool.true n (attempt 1 10) cursor

first_run : run_pages 1 none tt ≡ (ok found_first, tt)
unfolding reconcile search_pages repository_coordinates coordinates_of full_name_parts checked_parts
    is_name_part is_name_char split_once all_chars is_space
first_run = refl

abbrev upstream : Result String → Result (Option String)
upstream r = elim r [ ok c ↦ ok (some c) | err e ↦ err e ]

abbrev RunsFrom :
    (String → Uuid → Result String) → (Uuid → Option String → String) → Result String → Type 0
RunsFrom decode encode r =
    continue (upstream r) tt
      (λ c. search_pages decode encode list_two (attempt 1 10) "octo" "hello" 4 c [])
    ≡ (ok found_second, tt)

second_from :
    (decode : String → Uuid → Result String) (encode : Uuid → Option String → String) (s : String)
    → decode s 1 ≡ ok "c1"
    → reconcile decode encode
        (list_two {W = Unit {0}})
        Bool.true
        Bool.true
        4
        (attempt 1 10)
        (some s)
        tt
      ≡ (ok found_second, tt)
unfolding reconcile search_pages repository_coordinates coordinates_of full_name_parts checked_parts
    is_name_part is_name_char split_once all_chars is_space
second_from decode encode s e = subst (RunsFrom decode encode) (sym e) refl

second_run : run_pages 4 (some behind_first) tt ≡ (ok found_second, tt)
second_run =
    second_from (decode_reconciliation_cursor library) (encode_reconciliation_cursor library)
      behind_first (reconciliation-round_trip library library-Documented 1 "c1" refl)

reconcile-resume_example :
    (r : GitHubReconciliationResult) × (run_pages (1 + 4) none tt ≡ (ok r, tt))
    × Joins found_first found_second r
reconcile-resume_example =
    reconcile-resume {W = Unit {0}} library library-Documented list_two (attempt 1 10) 0 4 none
      behind_first tt tt tt found_first found_second refl first_run refl second_run
