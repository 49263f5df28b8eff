-- ===== src/Tests/Texts.antt =====
-- A library of texts with the documented properties, for the tests: numbers are written in unary.
use Prim.Native.Char.{Char, char, code, nul, IsScalar}
use Prim.Native.Nat.{compare, Ordering}
use text.Mathlib.TextEquality.{Char-path}
use github_webhook_monitor.Prelude.{
  ℕ, zero, suc, String, ◌==◌, some, List, [], ◌∷◌, ◌<>◌, ◌≡◌, ◌⊎◌, inl, inr, refl, ap, arith,
  if◌then◌else◌, is_ascii, all_chars, str_length, str_eq, ◌%◌, leb, ltb, ◌&&◌, false, true, Bool,
  pos, all_chars_mono, eq_refl,
}
use github_webhook_monitor.Domain.Json.{Json, int, str, obj, Fields, end, field, get_item}
use github_webhook_monitor.Services.Webhooks.{Loaded, value}
use github_webhook_monitor.Services.Cursors.{TextLibrary, padding, rstrip_padding, cursor_fields}
use github_webhook_monitor.Services.Cursors.RoundTrip.{Documented, IsBase64}

pub ord : (o : Ordering) → (o ≡ Ordering.lt) ⊎ ((o ≡ Ordering.eq) ⊎ (o ≡ Ordering.gt))
ord Ordering.lt = inl refl
ord Ordering.eq = inr (inl refl)
ord Ordering.gt = inr (inr refl)

abbrev Case : Ordering → Type 0
Case o = (o ≡ Ordering.lt) ⊎ ((o ≡ Ordering.eq) ⊎ (o ≡ Ordering.gt))

abbrev char_from :
    (n : ℕ) → Case (compare n 55296) → Case (compare 57343 n) → Case (compare n 1114112) → Char
char_from n (inl a) b c = char n (rw a tt)
char_from n (inr (inl a)) (inl b) (inl c) = char n (rw (a, b, c) tt)
char_from n (inr (inr a)) (inl b) (inl c) = char n (rw (a, b, c) tt)
char_from n x y z = nul

code-from :
    (n : ℕ) (a : Case (compare n 55296)) (b : Case (compare 57343 n)) (c : Case (compare n 1114112))
    → IsScalar n
    → code (char_from n a b c) ≡ n
code-from n (inl a) b c p = refl
code-from n (inr (inl a)) (inl b) (inl c) p = refl
code-from n (inr (inl a)) (inl b) (inr (inl c)) p = absurd (rw (a, b, c) at p)
code-from n (inr (inl a)) (inl b) (inr (inr c)) p = absurd (rw (a, b, c) at p)
code-from n (inr (inl a)) (inr (inl b)) c p = absurd (rw (a, b) at p)
code-from n (inr (inl a)) (inr (inr b)) c p = absurd (rw (a, b) at p)
code-from n (inr (inr a)) (inl b) (inl c) p = refl
code-from n (inr (inr a)) (inl b) (inr (inl c)) p = absurd (rw (a, b, c) at p)
code-from n (inr (inr a)) (inl b) (inr (inr c)) p = absurd (rw (a, b, c) at p)
code-from n (inr (inr a)) (inr (inl b)) c p = absurd (rw (a, b) at p)
code-from n (inr (inr a)) (inr (inr b)) c p = absurd (rw (a, b) at p)

-- The character of a number.
abbrev char_of : ℕ → Char
char_of n = char_from n (ord (compare n 55296)) (ord (compare 57343 n)) (ord (compare n 1114112))

char_of-code : (c : Char) → char_of (code c) ≡ c
char_of-code (char n p) = Char-path (char_of n) (char n p) (code-from n _ _ _ p)

abbrev letter_a : Char
letter_a = char 65 tt

abbrev letter_b : Char
letter_b = char 66 tt

abbrev letter_c : Char
letter_c = char 67 tt

abbrev pub units : ℕ → String → String
units zero t = t
units (suc n) t = String.◌∷◌ letter_a (units n t)

abbrev written : String → String → String
written String.[] t = t
written (String.◌∷◌ c s) t = String.◌∷◌ letter_b (units (code c) (written s t))

abbrev all_written : List String → String
all_written [] = String.[]
all_written (s ∷ texts) = String.◌∷◌ letter_c (written s (all_written texts))

abbrev Read : Type 0
Read = ℕ × String × List String

abbrev read_letter : ℕ → Read → Read
read_letter c (n, s, texts) =
    if c == 65
    then (suc n, s, texts)
    else if c == 66
    then (0, String.◌∷◌ (char_of n) s, texts)
    else (0, String.[], s ∷ texts)

abbrev read : String → Read
read String.[] = (0, String.[], [])
read (String.◌∷◌ c t) = read_letter (code c) (read t)

read-units :
    (n : ℕ) (t s : String) (texts : List String)
    → read t ≡ (0, s, texts)
    → read (units n t) ≡ (n, s, texts)
read-units zero t s texts h = h
read-units (suc n) t s texts h = rw (read-units n t s texts h) refl

read-written :
    (s t : String) (texts : List String)
    → read t ≡ (0, String.[], texts)
    → read (written s t) ≡ (0, s, texts)
read-written String.[] t texts h = h
read-written (String.◌∷◌ c s) t texts h =
    rw (read-units (code c) (written s t) s texts (read-written s t texts h), char_of-code c) refl

read-all_written : (texts : List String) → read (all_written texts) ≡ (0, String.[], texts)
read-all_written [] = refl
read-all_written (s ∷ texts) =
    rw (read-written s (all_written texts) texts (read-all_written texts)) refl

abbrev four_times : String → String
four_times String.[] = String.[]
four_times (String.◌∷◌ c s) =
    String.◌∷◌ c (String.◌∷◌ c (String.◌∷◌ c (String.◌∷◌ c (four_times s))))

abbrev every_fourth : String → String
every_fourth (String.◌∷◌ c (String.◌∷◌ c' (String.◌∷◌ c'' (String.◌∷◌ d s)))) =
    String.◌∷◌ c (every_fourth s)
every_fourth s = String.[]

every_fourth-four_times : (s : String) → every_fourth (four_times s) ≡ s
every_fourth-four_times String.[] = refl
every_fourth-four_times (String.◌∷◌ c s) = ap (String.◌∷◌ c) (every_fourth-four_times s)

abbrev is_letter : ℕ → Bool
is_letter c = leb 65 c && leb c 67

units-letters :
    (n : ℕ) (t : String) → all_chars is_letter t ≡ true → all_chars is_letter (units n t) ≡ true
unfolding all_chars
units-letters zero t h = h
units-letters (suc n) t h = units-letters n t h

written-letters :
    (s t : String) → all_chars is_letter t ≡ true → all_chars is_letter (written s t) ≡ true
unfolding all_chars
written-letters String.[] t h = h
written-letters (String.◌∷◌ c s) t h = units-letters (code c) (written s t) (written-letters s t h)

all_written-letters : (texts : List String) → all_chars is_letter (all_written texts) ≡ true
unfolding all_chars
all_written-letters [] = refl
all_written-letters (s ∷ texts) = written-letters s (all_written texts) (all_written-letters texts)

four_times-letters :
    (s : String) → all_chars is_letter s ≡ true → all_chars is_letter (four_times s) ≡ true
unfolding all_chars
four_times-letters String.[] h = refl
four_times-letters (String.◌∷◌ c s) h = ground (arith, h, four_times-letters s (ground (arith, h)))

four_times-length : (s : String) → str_length (four_times s) % 4 ≡ 0
unfolding str_length
four_times-length String.[] = refl
four_times-length (String.◌∷◌ c s) = omega (arith, four_times-length s)

letters-unpadded : (s : String) → all_chars is_letter s ≡ true → rstrip_padding s ≡ s
unfolding all_chars rstrip_padding
letters-unpadded String.[] h = refl
letters-unpadded (String.◌∷◌ c s) h =
    let other : (code c == 61) ≡ false = ground (arith, h) in
    rw (other, letters-unpadded s (ground (arith, h))) refl

abbrev value_text : Json → String
value_text (str s) = String.◌∷◌ letter_a s
value_text _ = String.[]

abbrev strings_of : Fields → List String
strings_of end = []
strings_of (field key v rest) = key ∷ value_text v ∷ strings_of rest

abbrev value_of : String → Json
value_of String.[] = int (pos 1)
value_of (String.◌∷◌ c s) = str s

abbrev fields_of : List String → Fields
fields_of (key ∷ v ∷ rest) = field key (value_of v) (fields_of rest)
fields_of texts = end

abbrev dumped_plain : Fields → String
dumped_plain fields = four_times (String.◌∷◌ letter_a (all_written (strings_of fields)))

abbrev pub loaded_plain : String → Loaded
loaded_plain text = value (obj (fields_of (read (every_fourth text)).2))

abbrev pub library : TextLibrary
library = record {
  dumped = dumped_plain;
  loaded = loaded_plain;
  parse_uuid = λ text. some (str_length text);
  str_uuid = λ id. units id String.[];
  fromisoformat = λ text. some (record { instant = str_length text; utcoffset = some (pos 0) });
  isoformat = λ t. units t.instant String.[];
  from_local = λ instant. instant;
  is_float_one = λ text. str_eq text "1.0";
}

append-empty : (s : String) → s ≡ s <> String.[]
append-empty String.[] = refl
append-empty (String.◌∷◌ c s) = ap (String.◌∷◌ c) (append-empty s)

plain-IsBase64 : (fields : Fields) → IsBase64 (dumped_plain fields)
unfolding padding is_ascii all_chars
plain-IsBase64 fields =
    let letters =
      four_times-letters (String.◌∷◌ letter_a (all_written (strings_of fields)))
        (all_written-letters (strings_of fields)) in
    record {
      body = dumped_plain fields;
      pads = 0;
      made = append-empty (dumped_plain fields);
      at_most_two = omega arith;
      multiple =
          omega (arith, four_times-length (String.◌∷◌ letter_a (all_written (strings_of fields))));
      unpadded = letters-unpadded (dumped_plain fields) letters;
      not_empty = refl;
      ascii =
          all_chars_mono is_letter (λ c. ltb c 128) (λ c h. ground (arith, h)) (dumped_plain fields)
            letters;
    }

loaded-dumped :
    (fields : Fields)
    → loaded_plain (dumped_plain fields) ≡ value (obj (fields_of (strings_of fields)))
loaded-dumped fields =
    rw
      (
        every_fourth-four_times (all_written (strings_of fields)),
        read-all_written (strings_of fields),
      )
      refl

units-length : (n : ℕ) → str_length (units n String.[]) ≡ n
unfolding str_length
units-length zero = refl
units-length (suc n) = ap suc (units-length n)

pub library-Documented : Documented library
unfolding get_item
library-Documented = record {
  base64 = plain-IsBase64;
  read_back = λ key text key' text' v1 v2 different. (
    cursor_fields key text key' (str text'),
    loaded-dumped (cursor_fields key text key' (str text')),
    refl,
    rw (v1, eq_refl key) refl,
    rw (v2, different, eq_refl key') refl,
  );
  uuid = λ id small. ap some (units-length id);
  datetime = λ instant range.
      ap (λ n. some (record { instant = n; utcoffset = some (pos 0) })) (units-length instant);
}
