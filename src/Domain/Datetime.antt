-- ===== src/Domain/Datetime.antt =====
-- `datetime` and `UUID` values as the program compares them.
use github_webhook_monitor.Prelude.{ℕ, ℤ, Bool, Option, is_none}

-- `instant` counts microseconds of UTC (of local time, if the value is naive) from the day before
-- year 1, so that every datetime has one. `utcoffset` is None for a naive value.
pub record Datetime : Type 0 where
  pub instant : ℕ
  pub utcoffset : Option ℤ

-- `value.tzinfo is None or value.utcoffset() is None`
abbrev pub is_naive : Datetime → Bool
is_naive t = is_none t.utcoffset

-- A UUID is compared as its 128-bit integer.
abbrev pub Uuid : Type 0
Uuid = ℕ
