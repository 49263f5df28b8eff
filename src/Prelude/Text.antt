-- ===== src/Prelude/Text.antt =====
-- Python's `str` operations that the program calls, on the native text, character by character.
use Prim.Native.Char.{code}
use Prim.Native.Nat.{ℕ, zero, suc, ◌+◌, ◌-◌, ◌*◌}
use Prim.Native.String.{String}
use mathlib.Core.Bool.{Bool, true, false, ◌&&◌, ◌||◌, not}
use mathlib.Core.List.{List, [], ◌∷◌}
use mathlib.Core.Option.{Option, none, some}
use native.Mathlib.Omega.{arith}
use mathlib.Core.Path.{◌≡◌, refl}
use text.Mathlib.Text
use github_webhook_monitor.Prelude.Int.{ℤ, pos, negsuc}
use github_webhook_monitor.Prelude.Tests.{ltb, leb, ◌==◌, if◌then◌else◌}

-- `s == t` on texts
abbrev pub str_eq : String → String → Bool
str_eq s t = Text.◌==◌ s t

-- `s in texts`, for a set of texts given by its members
abbrev pub str_in : String → List String → Bool
str_in s [] = false
str_in s (t ∷ ts) = str_eq s t || str_in s ts

-- `s + t`
infixr 65 ◌<>◌
abbrev pub ◌<>◌ : String → String → String
String.[] <> t = t
(String.◌∷◌ c s) <> t = String.◌∷◌ c (s <> t)

-- `not s`
abbrev pub is_empty : String → Bool
is_empty String.[] = true
is_empty (String.◌∷◌ c s) = false

-- `len(s)`, in characters
unfoldable pub str_length : String → ℕ
str_length String.[] = 0
str_length (String.◌∷◌ c s) = suc (str_length s)

unfoldable pub all_chars : (ℕ → Bool) → String → Bool
all_chars p String.[] = true
all_chars p (String.◌∷◌ c s) = p (code c) && all_chars p s

pub all_chars_mono :
    (p q : ℕ → Bool)
    → ((c : ℕ) → p c ≡ true → q c ≡ true)
    → (s : String) → all_chars p s ≡ true
    → all_chars q s ≡ true
unfolding all_chars
all_chars_mono p q imp String.[] h = refl
all_chars_mono p q imp (String.◌∷◌ c s) h = ground (arith, imp (code c), all_chars_mono p q imp s)

-- `ch.isspace()`, which is also what `\s` matches
unfoldable pub is_space : ℕ → Bool
is_space c =
    (leb 9 c && leb c 13)
    || (leb 28 c && leb c 32)
    || c == 133
    || c == 160
    || c == 5760
    || (leb 8192 c && leb c 8202)
    || c == 8232
    || c == 8233
    || c == 8239
    || c == 8287
    || c == 12288

unfoldable pub is_ascii : String → Bool
is_ascii s = all_chars (λ c. ltb c 128) s

unfoldable pub lstrip : String → String
lstrip String.[] = String.[]
lstrip (String.◌∷◌ c s) = let rest = lstrip s in if is_space (code c) then rest else String.◌∷◌ c s

unfoldable pub rstrip : String → String
rstrip String.[] = String.[]
rstrip (String.◌∷◌ c s) =
    let rest = rstrip s in
    if is_space (code c) && is_empty rest then String.[] else String.◌∷◌ c rest

-- `s.strip()`
unfoldable pub strip : String → String
unfolding lstrip rstrip is_space
strip s = rstrip (lstrip s)

-- `not s.strip()`
unfoldable pub is_blank : String → Bool
unfolding strip
is_blank s = is_empty (strip s)

-- `s.split(sep, 1)` for a separator of one character: none if it does not occur
unfoldable pub split_once : ℕ → String → Option (String × String)
split_once sep String.[] = none
split_once sep (String.◌∷◌ c s) =
    let rest = split_once sep s in
    if code c == sep
    then some (String.[], s)
    else elim rest [ none ↦ none | some (a, b) ↦ some (String.◌∷◌ c a, b) ]

-- The first code point of each run of ten decimal digits (Unicode 15.0, category Nd).
abbrev decimal_zeros : List ℕ
decimal_zeros =
    0x30 ∷ 0x660 ∷ 0x6f0 ∷ 0x7c0 ∷ 0x966 ∷ 0x9e6 ∷ 0xa66 ∷ 0xae6 ∷ 0xb66 ∷ 0xbe6 ∷ 0xc66 ∷ 0xce6
    ∷ 0xd66 ∷ 0xde6 ∷ 0xe50 ∷ 0xed0 ∷ 0xf20 ∷ 0x1040 ∷ 0x1090 ∷ 0x17e0 ∷ 0x1810 ∷ 0x1946 ∷ 0x19d0
    ∷ 0x1a80 ∷ 0x1a90 ∷ 0x1b50 ∷ 0x1bb0 ∷ 0x1c40 ∷ 0x1c50 ∷ 0xa620 ∷ 0xa8d0 ∷ 0xa900 ∷ 0xa9d0
    ∷ 0xa9f0 ∷ 0xaa50 ∷ 0xabf0 ∷ 0xff10 ∷ 0x104a0 ∷ 0x10d30 ∷ 0x11066 ∷ 0x110f0 ∷ 0x11136 ∷ 0x111d0
    ∷ 0x112f0 ∷ 0x11450 ∷ 0x114d0 ∷ 0x11650 ∷ 0x116c0 ∷ 0x11730 ∷ 0x118e0 ∷ 0x11950 ∷ 0x11c50
    ∷ 0x11d50 ∷ 0x11da0 ∷ 0x11f50 ∷ 0x16a60 ∷ 0x16ac0 ∷ 0x16b50 ∷ 0x1d7ce ∷ 0x1d7d8 ∷ 0x1d7e2
    ∷ 0x1d7ec ∷ 0x1d7f6 ∷ 0x1e140 ∷ 0x1e2f0 ∷ 0x1e4f0 ∷ 0x1e950 ∷ 0x1fbf0 ∷ []

decimal_from : List ℕ → ℕ → Option ℕ
decimal_from [] c = none
decimal_from (z ∷ zs) c =
    let rest = decimal_from zs c in if leb z c && ltb c (z + 10) then some (c - z) else rest

-- The value of a decimal digit, in any script.
unfoldable pub decimal : ℕ → Option ℕ
unfolding decimal_from
decimal c = decimal_from decimal_zeros c

-- The digits of `int`: single underscores between digits, at most 4300 digits.
digits_loop : String → Bool → ℕ → ℕ → Option ℕ
digits_loop String.[] after_digit acc n = if after_digit && leb n 4300 then some acc else none
digits_loop (String.◌∷◌ c s) after_digit acc n = elim (code c == 95) [
  | true ↦ elim after_digit [ true ↦ digits_loop s false acc n | false ↦ none ]
  | false ↦ elim (decimal (code c)) [
    | none ↦ none
    | some d ↦ digits_loop s true (acc * 10 + d) (n + 1)
  ]
]

negated : ℕ → ℤ
negated zero = pos 0
negated (suc n) = negsuc n

signed_digits : String → Option ℤ
signed_digits String.[] = none
signed_digits (String.◌∷◌ c s) =
    if code c == 45
    then elim (digits_loop s false 0 0) [ none ↦ none | some n ↦ some (negated n) ]
    else if code c == 43
    then elim (digits_loop s false 0 0) [ none ↦ none | some n ↦ some (pos n) ]
    else elim (digits_loop (String.◌∷◌ c s) false 0 0) [ none ↦ none | some n ↦ some (pos n) ]

-- The white space that `int` passes over: unlike `str.strip`, not U+001C to U+001F.
unfoldable pub is_int_space : ℕ → Bool
unfolding is_space
is_int_space c = is_space c && not (leb 28 c && leb c 31)

unfoldable pub int_lstrip : String → String
unfolding is_int_space
int_lstrip String.[] = String.[]
int_lstrip (String.◌∷◌ c s) =
    let rest = int_lstrip s in if is_int_space (code c) then rest else String.◌∷◌ c s

unfoldable pub int_rstrip : String → String
unfolding is_int_space
int_rstrip String.[] = String.[]
int_rstrip (String.◌∷◌ c s) =
    let rest = int_rstrip s in
    if is_int_space (code c) && is_empty rest then String.[] else String.◌∷◌ c rest

-- `int(s)` on a text: none is its `ValueError`.
unfoldable pub parse_int : String → Option ℤ
unfolding int_lstrip int_rstrip signed_digits digits_loop decimal negated
parse_int s = signed_digits (int_rstrip (int_lstrip s))

-- `ch.lower()` on Latin-1, which header values are decoded as. (Of all other characters only the
-- Kelvin sign becomes an ASCII letter.)
lower_char : ℕ → ℕ
lower_char c =
    if (leb 65 c && leb c 90) || (leb 192 c && leb c 222 && not (c == 215))
    then c + 32
    else if c == 0x212a
    then 107
    else c

-- `s.lower() == t`, for a text `t` of code points
lower_eq : String → List ℕ → Bool
lower_eq String.[] [] = true
lower_eq String.[] (d ∷ ds) = false
lower_eq (String.◌∷◌ c s) [] = false
lower_eq (String.◌∷◌ c s) (d ∷ ds) = lower_char (code c) == d && lower_eq s ds

abbrev pub codes : String → List ℕ
codes String.[] = []
codes (String.◌∷◌ c s) = code c ∷ codes s

unfoldable pub str_lower_eq : String → String → Bool
unfolding lower_eq lower_char
str_lower_eq s t = lower_eq s (codes t)

-- `s.startswith(prefix)`
unfoldable pub startswith : String → String → Bool
startswith s String.[] = true
startswith String.[] (String.◌∷◌ d prefix) = false
startswith (String.◌∷◌ c s) (String.◌∷◌ d prefix) = code c == code d && startswith s prefix

-- The pieces between the characters at which `cut` holds; `word` is the piece read so far.
pieces : (ℕ → Bool) → String → String → List String
pieces cut word String.[] = word ∷ []
pieces cut word (String.◌∷◌ c s) = elim (cut (code c)) [
  | true ↦ word ∷ pieces cut String.[] s
  | false ↦ pieces cut (word <> (String.◌∷◌ c String.[])) s
]

non_empty : List String → List String
non_empty [] = []
non_empty (s ∷ ss) = let rest = non_empty ss in if is_empty s then rest else s ∷ rest

-- `s.split(sep)` for a separator of one character
unfoldable pub split_all : ℕ → String → List String
unfolding pieces
split_all sep s = pieces (λ c. c == sep) "" s

-- `s.split()`: the runs of characters that are not white space
unfoldable pub split_words : String → List String
unfolding pieces non_empty is_space
split_words s = non_empty (pieces is_space "" s)

-- `[item.strip() for item in texts if item.strip()]`
unfoldable pub non_blank : List String → List String
unfolding strip
non_blank [] = []
non_blank (s ∷ ss) = let rest = non_blank ss in if is_empty (strip s) then rest else strip s ∷ rest

-- `any(text.strip() == s for text in texts)`
unfoldable pub any_strip : String → List String → Bool
unfolding strip
any_strip s [] = false
any_strip s (t ∷ ts) = str_eq (strip t) s || any_strip s ts

-- `s.rstrip("/")`
unfoldable pub rstrip_slash : String → String
rstrip_slash String.[] = String.[]
rstrip_slash (String.◌∷◌ c s) =
    let rest = rstrip_slash s in
    if code c == b'/' && is_empty rest then String.[] else String.◌∷◌ c rest
