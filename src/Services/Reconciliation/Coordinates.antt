-- ===== src/Services/Reconciliation/Coordinates.antt =====
-- Owner and name of a repository from its full name.
use text.Mathlib.TextEquality.{Char-path}
use github_webhook_monitor.Prelude.{
  all_chars_mono, ℕ, String, Char, code, Bool, true, not, Option, none, some, ◌≡◌, refl, ap, ◌∙◌,
  ◌↔◌, inl, inr, ◌<>◌, split_once, all_chars, ◌==◌, arith, Bool-cases, ==_iff, Option-cases,
}
use github_webhook_monitor.Services.Reconciliation.{
  is_name_part, is_name_char, full_name_parts, checked_parts,
}

abbrev slash : Char
slash = "/"

at_slash :
    (c : Char) (s a b : String)
    → (code c == b'/') ≡ true
    → ◌≡◌ {A = Option (String × String)} (some ("", s)) (some (a, b))
    → String.◌∷◌ c s ≡ a <> (String.◌∷◌ slash b)
at_slash c s a b e h =
    let first : "" ≡ a = ground arith in
    let rest : s ≡ b = ground arith in
    rw (← first, rest) (ap (λ d. String.◌∷◌ d b) (Char-path c slash ((==_iff (code c) b'/').0 e)))

past_slash :
    (c : Char) (s a b a' b' : String)
    → ◌≡◌ {A = Option (String × String)} (some (String.◌∷◌ c a', b')) (some (a, b))
    → s ≡ a' <> (String.◌∷◌ slash b')
    → String.◌∷◌ c s ≡ a <> (String.◌∷◌ slash b)
past_slash c s a b a' b' h ih =
    let first : String.◌∷◌ c a' ≡ a = ground arith in
    let rest : b' ≡ b = ground arith in rw (← first, ← rest) (ap (String.◌∷◌ c) ih)

pub split_once-join : (s a b : String) → split_once b'/' s ≡ some (a, b) → s ≡ a <> ("/" <> b)
unfolding split_once
split_once-join String.[] a b h = absurd (ground arith)
split_once-join (String.◌∷◌ c s) a b h = elim (Bool-cases (code c == b'/')) [
  | inl e ↦ at_slash c s a b e (rw e at h)
  | inr e ↦ elim (Option-cases (split_once b'/' s)) [
    | inl none_left ↦ absurd (ground arith)
    | inr ((a', b'), found) ↦
        past_slash c s a b a' b' (rw (e, found) at h) (split_once-join s a' b' found)
  ]
]

no_slash : ℕ → Bool
no_slash c = not (c == b'/')

split_once_of-join :
    (a b : String) → all_chars no_slash a ≡ true → split_once b'/' (a <> ("/" <> b)) ≡ some (a, b)
unfolding split_once no_slash all_chars
split_once_of-join String.[] b h = refl
split_once_of-join (String.◌∷◌ c a) b h = ground (arith, split_once_of-join a b)

name_char-no_slash : (c : ℕ) → is_name_char c ≡ true → no_slash c ≡ true
unfolding is_name_char no_slash
name_char-no_slash c h = ground arith

name_part-no_slash : (s : String) → is_name_part s ≡ true → all_chars no_slash s ≡ true
unfolding is_name_part
name_part-no_slash s h = all_chars_mono is_name_char no_slash name_char-no_slash s (ground arith)

checked_parts_inv :
    (cut : Option (String × String)) (owner repository : String)
    → checked_parts cut ≡ some (owner, repository)
    → (cut ≡ some (owner, repository))
      × (is_name_part owner ≡ true)
      × (is_name_part repository ≡ true)
unfolding checked_parts
checked_parts_inv none owner repository h = absurd (ground arith)
checked_parts_inv (some (a, b)) owner repository h = ground arith

-- A full name is taken apart exactly into an owner and a name that are not empty, hold no slash
-- and no white space, and give the full name back when a slash is put between them.
pub full_name_parts_iff :
    (name owner repository : String)
    → (full_name_parts name ≡ some (owner, repository)) ↔ (
        (name ≡ owner <> ("/" <> repository))
        × (is_name_part owner ≡ true)
        × (is_name_part repository ≡ true))
unfolding full_name_parts
full_name_parts_iff name owner repository = (
  λ h.
      let (cut, o, r) = checked_parts_inv (split_once b'/' name) owner repository h in
      (split_once-join name owner repository cut, o, r),
  λ (whole, o, r).
      let cut = split_once_of-join owner repository (name_part-no_slash owner o) in
      ap (λ n. checked_parts (split_once b'/' n)) whole ∙ ap checked_parts cut ∙ rw (o, r),
)
