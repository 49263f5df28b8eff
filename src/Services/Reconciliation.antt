-- ===== src/Services/Reconciliation.antt =====
-- app/services/github_reconciliation.py: finding the deliveries of a repository webhook that
-- belong to a local attempt. `decode` and `encode` are the codecs of
-- Services.Cursors.
pub mod Coordinates
pub mod Search
pub mod Joined
pub mod Resume
use github_webhook_monitor.Prelude.{
  ℕ, zero, suc, ℤ, String, Bool, true, false, not, ◌&&◌, ◌||◌, Option, none, some, List, [], ◌++◌,
  is_empty, is_space, all_chars, split_once, str_eq, keep, if◌then◌else◌, ◌==◌,
}
use github_webhook_monitor.Errors.{
  Result, ok, err, type_error, reconciliation_disabled, unsupported_reconciliation_target,
}
use github_webhook_monitor.Domain.Datetime.{Uuid}
use github_webhook_monitor.Domain.Deliveries.{DeliveryAttempt}
use github_webhook_monitor.Domain.Json.{Json, null, bool, int, real, str, arr, obj}
use github_webhook_monitor.Integrations.GitHub.{GitHubDeliverySummary, GitHubDeliveryPage}
use github_webhook_monitor.Services.Exec.{Exec, return, raise, pure, ◌>>=◌}

-- `list_repository_webhook_deliveries(owner, repository, hook_id, cursor)`
abbrev pub ListDeliveries : Type 0 → Type 0
ListDeliveries W = String → String → ℤ → Option String → Exec W GitHubDeliveryPage

pub record GitHubReconciliationResult : Type 0 where
  pub attempt : DeliveryAttempt
  pub matches : List GitHubDeliverySummary
  pub search_complete : Bool
  pub next_cursor : Option String

-- `[^/\s]`
unfoldable pub is_name_char : ℕ → Bool
is_name_char c = not (c == b'/') && not (is_space c)

-- one side of the slash: `[^/\s]+`
unfoldable pub is_name_part : String → Bool
is_name_part s = not (is_empty s) && all_chars is_name_char s

unfoldable pub checked_parts : Option (String × String) → Option (String × String)
checked_parts none = none
checked_parts (some (owner, repository)) =
    if is_name_part owner && is_name_part repository then some (owner, repository) else none

-- `REPOSITORY_FULL_NAME_PATTERN.fullmatch(name)`, with the parts of `name.split("/", 1)`
unfoldable pub full_name_parts : String → Option (String × String)
unfolding checked_parts
full_name_parts name = checked_parts (split_once b'/' name)

-- The pattern raises a TypeError on a value that is no text.
unfoldable pub coordinates_of : Json → Result (String × String)
coordinates_of null = err unsupported_reconciliation_target
coordinates_of (str name) = elim (full_name_parts name) [
  | none ↦ err unsupported_reconciliation_target
  | some parts ↦ ok parts
]
coordinates_of (bool _) = err type_error
coordinates_of (int _) = err type_error
coordinates_of (real _) = err type_error
coordinates_of (arr _) = err type_error
coordinates_of (obj _) = err type_error

abbrev is_other_target : Option String → Bool
is_other_target none = false
is_other_target (some target_type) = not (str_eq target_type "repository")

unfoldable pub repository_coordinates : DeliveryAttempt → Result (String × String)
unfolding coordinates_of
repository_coordinates attempt =
    if is_other_target attempt.installation_target_type
    then err unsupported_reconciliation_target
    else coordinates_of attempt.repository

abbrev pub is_match : DeliveryAttempt → GitHubDeliverySummary → Bool
is_match attempt delivery = str_eq delivery.delivery_guid attempt.delivery_identity.delivery_guid

module _ {W : Type 0} (decode : String → Uuid → Result String)
    (encode : Uuid → Option String → String) (list_deliveries : ListDeliveries W) where
  -- the `while`, with the pages that may still be fetched
  unfoldable pub search_pages :
      DeliveryAttempt
      → String
      → String
      → ℕ
      → Option String
      → List GitHubDeliverySummary
      → Exec W GitHubReconciliationResult
  search_pages attempt owner repository zero upstream_cursor matches = return (record {
    attempt = attempt;
    matches = matches;
    search_complete = false;
    next_cursor = some (encode attempt.attempt_id upstream_cursor);
  })
  search_pages attempt owner repository (suc pages_left) upstream_cursor matches = do
    page ← list_deliveries owner repository attempt.delivery_identity.hook_id upstream_cursor
    let found = matches ++ keep (is_match attempt) page.deliveries
    elim page.next_cursor [
      | none ↦ return (record {
        attempt = attempt;
        matches = found;
        search_complete = true;
        next_cursor = none;
      })
      | some cursor ↦ search_pages attempt owner repository pages_left (some cursor) found
    ]

  abbrev pub upstream_cursor_of : DeliveryAttempt → Option String → Result (Option String)
  upstream_cursor_of attempt none = ok none
  upstream_cursor_of attempt (some cursor) = elim (decode cursor attempt.attempt_id) [
    | ok c ↦ ok (some c)
    | err e ↦ err e
  ]

  unfoldable pub reconcile :
      (enabled has_client : Bool)
      → (max_pages : ℕ) → DeliveryAttempt
      → Option String
      → Exec W GitHubReconciliationResult
  reconcile enabled has_client max_pages attempt cursor =
      if not enabled || not has_client then raise reconciliation_disabled else (do
        (owner, repository) ← pure (repository_coordinates attempt)
        upstream_cursor ← pure (upstream_cursor_of attempt cursor)
        search_pages attempt owner repository max_pages upstream_cursor [])
