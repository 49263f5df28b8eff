-- ===== src/Prelude/Utf8.antt =====
-- `bytes`, and `str.encode("utf-8")`.
use Prim.Native.Char.{code}
use Prim.Native.Nat.{ℕ, ◌+◌, ◌/◌, ◌%◌}
use Prim.Native.String.{String}
use mathlib.Core.Path.{◌≡◌, refl, sym, ap₂}
use mathlib.Core.Logic.{◌↔◌}
use mathlib.Core.Bool.{Bool, true, false, ◌&&◌}
use mathlib.Core.List.{List, [], ◌∷◌}
use native.Mathlib.Omega.{arith}
use text.Mathlib.TextEquality.{Char-path}
use github_webhook_monitor.Prelude.Tests.{ltb, ◌==◌, if◌then◌else◌}

abbrev pub Bytes : Type 0
Bytes = List ℕ

-- `a == b`
unfoldable pub bytes_eq : Bytes → Bytes → Bool
bytes_eq [] [] = true
bytes_eq [] (b ∷ bs) = false
bytes_eq (a ∷ r) [] = false
bytes_eq (a ∷ r) (b ∷ bs) = a == b && bytes_eq r bs

-- The bytes of one character, in front of `rest`.
unfoldable pub utf8_char : ℕ → Bytes → Bytes
utf8_char c rest =
    if ltb c 0x80
    then c ∷ rest
    else if ltb c 0x800
    then (0xc0 + c / 64) ∷ (0x80 + c % 64) ∷ rest
    else if ltb c 0x10000
    then (0xe0 + c / 4096) ∷ (0x80 + (c / 64) % 64) ∷ (0x80 + c % 64) ∷ rest
    else (0xf0 + c / 262144)
      ∷ (0x80 + (c / 4096) % 64)
      ∷ (0x80 + (c / 64) % 64)
      ∷ (0x80 + c % 64)
      ∷ rest

-- `s.encode("utf-8")`
unfoldable pub encode_utf8 : String → Bytes
encode_utf8 String.[] = []
encode_utf8 (String.◌∷◌ c s) = utf8_char (code c) (encode_utf8 s)

pub bytes_eq_iff : (a b : Bytes) → (bytes_eq a b ≡ true) ↔ (a ≡ b)
unfolding bytes_eq
bytes_eq_iff [] [] = (λ h. refl, λ h. refl)
bytes_eq_iff [] (b ∷ bs) = (λ h. cc, λ h. cc)
bytes_eq_iff (a ∷ r) [] = (λ h. cc, λ h. cc)
bytes_eq_iff (a ∷ r) (b ∷ bs) = ground (arith, bytes_eq_iff r bs)

utf8_char-injective :
    (c d : ℕ) (xs ys : Bytes) → utf8_char c xs ≡ utf8_char d ys → (c ≡ d) × (xs ≡ ys)
unfolding utf8_char
utf8_char-injective c d xs ys e = ground arith

utf8_char-ne-nil : (c : ℕ) (xs : Bytes) → utf8_char c xs ≡ [] → ⊥
unfolding utf8_char
utf8_char-ne-nil c xs e = ground arith

-- Two texts with the same encoding are the same text.
pub encode_utf8-injective : (s t : String) → encode_utf8 s ≡ encode_utf8 t → s ≡ t
unfolding encode_utf8
encode_utf8-injective String.[] String.[] e = refl
encode_utf8-injective String.[] (String.◌∷◌ d t) e = absurd (utf8_char-ne-nil _ _ (sym e))
encode_utf8-injective (String.◌∷◌ c s) String.[] e = absurd (utf8_char-ne-nil _ _ e)
encode_utf8-injective (String.◌∷◌ c s) (String.◌∷◌ d t) e =
    let (same, rest) = utf8_char-injective (code c) (code d) (encode_utf8 s) (encode_utf8 t) e in
    ap₂ String.◌∷◌ (Char-path c d same) (encode_utf8-injective s t rest)
