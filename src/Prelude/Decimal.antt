-- ===== src/Prelude/Decimal.antt =====
-- `str(n)` on an integer.
use Prim.Native.Char.{Char, char}
use Prim.Native.Nat.{ℕ, zero, suc, ◌/◌, ◌%◌}
use Prim.Native.String.{String}
use github_webhook_monitor.Prelude.Int.{ℤ, pos, negsuc}
use github_webhook_monitor.Prelude.Tests.{ltb, ◌==◌, if◌then◌else◌}

-- the character of a number below ten
unfoldable pub digit : ℕ → Char
digit n =
    if n == 0
    then char 48 tt
    else if n == 1
    then char 49 tt
    else if n == 2
    then char 50 tt
    else if n == 3
    then char 51 tt
    else if n == 4
    then char 52 tt
    else if n == 5
    then char 53 tt
    else if n == 6
    then char 54 tt
    else if n == 7
    then char 55 tt
    else if n == 8
    then char 56 tt
    else char 57 tt

-- The digits of `n` in front of `rest`. Each step divides by ten, so `n` steps are enough.
digits : ℕ → ℕ → String → String
unfolding digit
digits zero n rest = String.◌∷◌ (digit (n % 10)) rest
digits (suc fuel) n rest =
    let more = digits fuel (n / 10) (String.◌∷◌ (digit (n % 10)) rest) in
    if ltb n 10 then String.◌∷◌ (digit n) rest else more

unfoldable pub str_int : ℤ → String
unfolding digits
str_int (pos n) = digits n n String.[]
str_int (negsuc n) = String.◌∷◌ (char 45 tt) (digits (suc n) (suc n) String.[])
