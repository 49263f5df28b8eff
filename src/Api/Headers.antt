-- ===== src/Api/Headers.antt =====
-- The checks of request headers in app/api/routes.py.
use mathlib.Core.Option.{some-injective}
use github_webhook_monitor.Prelude.{
  ℕ, ℤ, pos, negsuc, zero, suc, String, Bool, false, Option, none, some, [], ◌≡◌, ◌↔◌, refl, sym,
  ap, subst, Bool-cases, inl, inr, is_blank, strip, split_once, str_lower_eq, parse_int, leb_ℤ, leb,
  if◌then◌else◌, arith,
}
use github_webhook_monitor.Errors.{Result, ok, err, http_exception, ◌>>=◌}

-- `content_type.split(";", 1)[0]`
media_type : String → String
media_type content_type = elim (split_once b';' content_type) [
  | none ↦ content_type
  | some (before, after) ↦ before
]

unfoldable pub is_json_content_type : Option String → Bool
unfolding media_type strip str_lower_eq
is_json_content_type none = false
is_json_content_type (some content_type) =
    str_lower_eq (strip (media_type content_type)) "application/json"

unfoldable pub require_non_empty_header : Option String → String → Result String
require_non_empty_header none detail = err (http_exception 400 detail [])
require_non_empty_header (some value) detail =
    if is_blank value then err (http_exception 400 detail []) else ok value

-- The integer test on a header value that is there.
unfoldable pub positive_integer : String → String → Result String
positive_integer header_value detail = elim (parse_int header_value) [
  | none ↦ err (http_exception 400 detail [])
  | some n ↦ if leb_ℤ n (pos 0) then err (http_exception 400 detail []) else ok header_value
]

unfoldable pub require_positive_integer_header : Option String → String → Result String
require_positive_integer_header value detail = do
  header_value ← require_non_empty_header value detail
  positive_integer header_value detail

-- The tests on the number that `Content-Length` declares.
unfoldable pub check_declared_length : Option ℤ → ℕ → Result (Unit {0})
check_declared_length none max_body_bytes = err (http_exception 400 "Invalid Content-Length" [])
check_declared_length (some (negsuc n)) max_body_bytes =
    err (http_exception 400 "Invalid Content-Length" [])
check_declared_length (some (pos n)) max_body_bytes =
    if leb n max_body_bytes then ok tt else err (http_exception 413 "Payload too large" [])

unfoldable pub validate_content_length : Option String → ℕ → Result (Unit {0})
validate_content_length none max_body_bytes = ok tt
validate_content_length (some content_length) max_body_bytes =
    check_declared_length (parse_int content_length) max_body_bytes

abbrev pub invalid_target : String
invalid_target = "Invalid GitHub installation target metadata"

unfoldable pub validate_installation_target :
    Option String → Option String → Result (Option String × Option String)
validate_installation_target none none = ok (none, none)
validate_installation_target none (some target_type) = err (http_exception 400 invalid_target [])
validate_installation_target (some target_id) none = err (http_exception 400 invalid_target [])
validate_installation_target (some target_id) (some target_type) = do
  checked_id ← require_positive_integer_header (some target_id) invalid_target
  checked_type ← require_non_empty_header (some target_type) invalid_target
  ok (some checked_id, some checked_type)

abbrev Positive : String → Type 0
Positive header = (n : ℕ) × (parse_int header ≡ some (pos (suc n)))

module _ (header detail : String) where
  positive_integer-inv :
      (o : Option ℤ)
      → parse_int header ≡ o
      → {v : String} → positive_integer header detail ≡ ok v
      → (header ≡ v) × Positive header
  unfolding positive_integer
  positive_integer-inv none e h = absurd (ground (arith, e))
  positive_integer-inv (some (pos zero)) e h = absurd (ground (arith, e))
  positive_integer-inv (some (pos (suc n))) e h = (ground (arith, e), (n, e))
  positive_integer-inv (some (negsuc n)) e h = absurd (ground (arith, e))

  positive_integer-ok : Positive header → positive_integer header detail ≡ ok header
  unfolding positive_integer
  positive_integer-ok (n, e) = rw (e, positive_integer) (ground arith)

-- A header passes if it is there and not blank.
pub require_non_empty_header-ok :
    (value : Option String) (detail : String) {v : String}
    → require_non_empty_header value detail ≡ ok v
    → (value ≡ some v) × (is_blank v ≡ false)
unfolding require_non_empty_header
require_non_empty_header-ok none detail h = absurd (ground arith)
require_non_empty_header-ok (some value) detail h = elim (Bool-cases (is_blank value)) [
  | inl b ↦ absurd (ground (arith, b))
  | inr b ↦ ground (arith, b)
]

-- A header is accepted as a positive integer exactly if it is there, is not blank and Python's
-- `int` reads a number above 0 from it; it is passed on as it came.
pub require_positive_integer_header-ok_iff :
    (value : Option String) (detail v : String)
    → (require_positive_integer_header value detail ≡ ok v)
      ↔ ((value ≡ some v) × (is_blank v ≡ false) × ((n : ℕ) × (parse_int v ≡ some (pos (suc n)))))
unfolding require_positive_integer_header require_non_empty_header positive_integer
require_positive_integer_header-ok_iff none detail v = (λ h. cc, λ h. cc (h.0))
require_positive_integer_header-ok_iff (some value) detail v = elim (Bool-cases (is_blank value)) [
  | inl b ↦ rw b (λ h. cc, λ h. ground (arith, b, h.0, h.1))
  | inr b ↦ rw b (
    (λ h.
        let (e, p) = positive_integer-inv value detail _ refl h in
        (ap some e, subst (λ u. is_blank u ≡ false) e b, subst Positive e p)),
    λ (e, f, p). ground (
      arith,
      positive_integer-ok value detail (subst Positive (sym (some-injective value v e)) p),
      e,
    ),
  )
]
