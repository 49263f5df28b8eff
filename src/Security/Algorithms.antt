-- ===== src/Security/Algorithms.antt =====
-- Which signature algorithms an access token may use (app/security.py).
use github_webhook_monitor.Prelude.{
  String, Bool, not, ◌||◌, List, [], ◌∷◌, length, non_blank, split_all, startswith, str_eq, ◌==◌,
}
use github_webhook_monitor.Errors.{Result, ok, value_error, raise_if, ◌>>◌}

-- `algorithm.startswith(ASYMMETRIC_JWT_ALGORITHM_PREFIXES)`
unfoldable pub is_asymmetric : String → Bool
unfolding startswith
is_asymmetric algorithm =
    startswith algorithm "RS" || startswith algorithm "PS" || startswith algorithm "ES"

unfoldable pub is_rejected_algorithm : String → Bool
unfolding startswith
is_rejected_algorithm algorithm =
    str_eq algorithm "none" || startswith algorithm "HS" || not (is_asymmetric algorithm)

unfoldable pub check_algorithms : List String → Result (Unit {0})
check_algorithms [] = ok tt
check_algorithms (algorithm ∷ algorithms) = do
  raise_if (is_rejected_algorithm algorithm) value_error
  check_algorithms algorithms

-- `parse_allowed_jwt_algorithms` of app/security.py on a text
unfoldable pub parse_allowed_jwt_algorithms : String → Result (List String)
unfolding split_all
parse_allowed_jwt_algorithms value =
    let algorithms = non_blank (split_all b',' value) in
    (do raise_if (length algorithms == 0) value_error; check_algorithms algorithms; ok algorithms)
