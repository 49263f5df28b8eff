-- ===== src/Domain/Json.antt =====
-- A value that `json.loads` returns, and the tests and reads that the program makes of one.
use github_webhook_monitor.Prelude.{String, Bool, Option, none, some, str_eq, if◌then◌else◌}
use github_webhook_monitor.Prelude.{ℤ, ◌≡◌, ap, arith}
use mathlib.Core.Option.{some-injective}

-- A float keeps its source text: the program never computes with one.
mutual
  pub data Json : Type 0 where
    null : Json
    bool : Bool → Json
    int : ℤ → Json
    real : String → Json
    str : String → Json
    arr : Items → Json
    obj : Fields → Json

  pub data Items : Type 0 where
    nil : Items
    cons : Json → Items → Items

  -- The entries of a dict, a key at most once.
  pub data Fields : Type 0 where
    end : Fields
    field : String → Json → Fields → Fields

-- `payload.get(key)` and, with none for a KeyError, `payload[key]`
unfoldable pub get_item : String → Fields → Option Json
get_item key end = none
get_item key (field k v rest) =
    let later = get_item key rest in if str_eq k key then some v else later

-- `payload.get(key)`
unfoldable pub get : String → Fields → Json
get key fields = elim (get_item key fields) [ none ↦ null | some v ↦ v ]

-- `value.get(key) if isinstance(value, dict) else None`
unfoldable pub get_if_dict : String → Json → Json
get_if_dict key (obj fields) = get key fields
get_if_dict key _ = null

-- `value if isinstance(value, str) else None`
unfoldable pub as_text : Json → Option String
as_text (str s) = some s
as_text _ = none

-- `value if isinstance(value, dict) else None`
unfoldable pub as_dict : Json → Option Fields
as_dict (obj fields) = some fields
as_dict _ = none

pub as_text-some : (value : Json) {s : String} → as_text value ≡ some s → value ≡ str s
unfolding as_text
as_text-some (str t) h = ap str (some-injective _ _ h)
as_text-some null h = absurd (ground arith)
as_text-some (bool b) h = absurd (ground arith)
as_text-some (int n) h = absurd (ground arith)
as_text-some (real r) h = absurd (ground arith)
as_text-some (arr xs) h = absurd (ground arith)
as_text-some (obj o) h = absurd (ground arith)

-- `payload if isinstance(payload, dict) else {}`
unfoldable pub dict_or_empty : Json → Fields
dict_or_empty (obj fields) = fields
dict_or_empty _ = end
