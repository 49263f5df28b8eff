-- ===== src/Services/Cursors/RoundTrip.antt =====
-- What an encoded cursor is decoded to.
use github_webhook_monitor.Prelude.{
  ℕ, zero, suc, ◌+◌, ◌^◌, ◌%◌, ◌-◌, ◌≤◌, pos, String, true, false, ◌==◌, some, ◌<>◌, ltb, is_empty,
  is_ascii, str_length, str_eq, ◌≡◌, refl, sym, ap, ◌∙◌, arith, Bool-cases, inl, inr, ==_iff,
  if◌then◌else◌,
}
use github_webhook_monitor.Errors.{invalid_reconciliation_cursor, ok, err, Exn, ok-injective}
use github_webhook_monitor.Domain.Datetime.{Datetime, Uuid, is_naive}
use github_webhook_monitor.Domain.Json.{int, Json, str, obj, Fields, get_item, get, as_dict}
use github_webhook_monitor.Services.Webhooks.{value}
use github_webhook_monitor.Services.Cursors.{
  TextLibrary, padding, rstrip_padding, padded, is_in_range, astimezone_utc, cursor_fields,
  cursor_error, is_version, cursor_payload, uuid_of, datetime_of, keyset_of, decode_keyset,
  encode_keyset, upstream_of, upstream_field, encode_reconciliation_cursor,
  decode_reconciliation_cursor,
}

-- What `urlsafe_b64encode` gives for the text of a dict: ASCII characters, padded with at most two
-- signs to a multiple of four.
pub record IsBase64 (text : String) : Type 0 where
  pub body : String
  pub pads : ℕ
  pub made : text ≡ body <> padding pads
  pub at_most_two : pads ≤ 2
  pub multiple : (str_length body + pads) % 4 ≡ 0
  pub unpadded : rstrip_padding body ≡ body
  pub not_empty : is_empty body ≡ false
  pub ascii : is_ascii text ≡ true

-- What the standard library documents of the functions.
pub record Documented (lib : TextLibrary) : Type 0 where
  pub base64 : (fields : Fields) → IsBase64 (lib.dumped fields)
  -- a dict of texts is read back, its keys in another order
  pub read_back :
      (key text key' text' : String)
      → str_eq "v" key ≡ false
      → str_eq "v" key' ≡ false
      → str_eq key key' ≡ false
      → (out : Fields) × (lib.loaded (lib.dumped (cursor_fields key text key' (str text')))
          ≡ value (obj out))
        × (get_item "v" out ≡ some (int (pos 1)))
        × (get_item key out ≡ some (str text))
        × (get_item key' out ≡ some (str text'))
  pub uuid : (id : Uuid) → ltb id (2 ^ 128) ≡ true → lib.parse_uuid (lib.str_uuid id) ≡ some id
  pub datetime :
      (instant : ℕ)
      → is_in_range instant ≡ true
      → lib.fromisoformat (lib.isoformat (record { instant = instant; utcoffset = some (pos 0) }))
        ≡ some (record { instant = instant; utcoffset = some (pos 0) })

str_length-append : (s t : String) → str_length (s <> t) ≡ str_length s + str_length t
unfolding str_length
str_length-append String.[] t = omega arith
str_length-append (String.◌∷◌ c s) t = omega (arith, str_length-append s t)

str_length-padding : (n : ℕ) → str_length (padding n) ≡ n
unfolding str_length padding
str_length-padding zero = refl
str_length-padding (suc n) = ap suc (str_length-padding n)

rstrip_padding-padding : (n : ℕ) → rstrip_padding (padding n) ≡ String.[]
unfolding rstrip_padding padding
rstrip_padding-padding zero = refl
rstrip_padding-padding (suc n) = rw (rstrip_padding-padding n) refl

rstrip_padding-append : (s : String) (n : ℕ) → rstrip_padding (s <> padding n) ≡ rstrip_padding s
unfolding rstrip_padding
rstrip_padding-append String.[] n = rstrip_padding-padding n
rstrip_padding-append (String.◌∷◌ c s) n = rw (rstrip_padding-append s n) refl

pads_back : (l n : ℕ) → n ≤ 2 → (l + n) % 4 ≡ 0 → (4 - l % 4) % 4 ≡ n
pads_back l n few multiple = omega arith

stripped : (text : String) (b : IsBase64 text) → rstrip_padding text ≡ b.body
stripped text b = ap rstrip_padding b.made ∙ rstrip_padding-append b.body b.pads ∙ b.unpadded

-- Stripping the padding and padding again gives the text back.
padded-rstrip : (text : String) → IsBase64 text → padded (rstrip_padding text) ≡ text
unfolding padded
padded-rstrip text b = rw (stripped text b) (
    ap (λ n. b.body <> padding n) (pads_back (str_length b.body) b.pads b.at_most_two b.multiple)
    ∙ sym b.made)

get_found : (out : Fields) {v : Json} → get_item "v" out ≡ some v → get "v" out ≡ v
unfolding get
get_found out e = rw (e, get) refl

version_accepted :
    (lib : TextLibrary) (out : Fields)
    → get_item "v" out ≡ some (int (pos 1))
    → is_version lib (get "v" out) ≡ true
unfolding is_version
version_accepted lib out e = rw (get_found out e) refl

module _ (lib : TextLibrary) (doc : Documented lib) where
  module _ (key text key' text' : String) (version_first : str_eq "v" key ≡ false)
      (version_second : str_eq "v" key' ≡ false) (different : str_eq key key' ≡ false) where
    abbrev dumped : String
    dumped = lib.dumped (cursor_fields key text key' (str text'))

    pub not_empty : is_empty (rstrip_padding dumped) ≡ false
    not_empty =
        let b = doc.base64 (cursor_fields key text key' (str text')) in
        rw (stripped dumped b) b.not_empty

    pub cursor_payload-dumped :
        (out : Fields) × (cursor_payload lib (rstrip_padding dumped) ≡ ok out)
        × (get_item key out ≡ some (str text))
        × (get_item key' out ≡ some (str text'))
    unfolding cursor_payload as_dict
    cursor_payload-dumped =
        let b = doc.base64 (cursor_fields key text key' (str text')) in
        let (out, read, version, first, second) =
          doc.read_back key text key' text' version_first version_second different in
        (
          out,
          rw (padded-rstrip dumped b, b.ascii, read, version_accepted lib out version) refl,
          first,
          second,
        )

  abbrev reconciliation_fields : Uuid → String → String
  reconciliation_fields id upstream =
      lib.dumped (cursor_fields "attempt_id" (lib.str_uuid id) "github_cursor" (str upstream))

  decode-upstream :
      (id : Uuid) (upstream : String) (out : Fields)
      → ltb id (2 ^ 128) ≡ true
      → cursor_payload lib (encode_reconciliation_cursor lib id (some upstream)) ≡ ok out
      → get_item "attempt_id" out ≡ some (str (lib.str_uuid id))
      → get_item "github_cursor" out ≡ some (str upstream)
      → decode_reconciliation_cursor lib (encode_reconciliation_cursor lib id (some upstream)) id
        ≡ (if is_empty upstream then err invalid_reconciliation_cursor else ok upstream)
  unfolding decode_reconciliation_cursor upstream_field uuid_of upstream_of cursor_error
  decode-upstream id upstream out small read first second =
      let same : (id == id) ≡ true = (==_iff id id).1 refl in
      elim (Bool-cases (is_empty upstream)) [
        | inl e ↦ rw (read, first, doc.uuid id small, second, same, e) refl
        | inr e ↦ rw (read, first, doc.uuid id small, second, same, e) refl
      ]

  -- A cursor of the reconciliation is decoded to what it was made from, unless that is empty, when it
  -- is refused.
  pub reconciliation-round_trip :
      (id : Uuid) (upstream : String)
      → ltb id (2 ^ 128) ≡ true
      → decode_reconciliation_cursor lib (encode_reconciliation_cursor lib id (some upstream)) id
        ≡ (if is_empty upstream then err invalid_reconciliation_cursor else ok upstream)
  unfolding encode_reconciliation_cursor
  reconciliation-round_trip id upstream small =
      let (out, read, first, second) =
        cursor_payload-dumped "attempt_id" (lib.str_uuid id) "github_cursor" upstream refl refl
          refl in
      decode-upstream id upstream out small read first second

  pub reconciliation-decoded :
      (id : Uuid)
      → ltb id (2 ^ 128) ≡ true
      → (upstream found : String)
      → decode_reconciliation_cursor lib (encode_reconciliation_cursor lib id (some upstream)) id
        ≡ ok found
      → found ≡ upstream
  reconciliation-decoded id small upstream found h =
      let e = reconciliation-round_trip id upstream small in
      elim (Bool-cases (is_empty upstream)) [
        | inl empty ↦ absurd (ground (arith, sym h ∙ e, empty))
        | inr full ↦ ok-injective (sym h ∙ e ∙ rw full refl)
      ]

  pub keyset-round_trip :
      (refused : Exn) (time_key id_key : String) (time : Datetime) (id : Uuid)
      → str_eq "v" time_key ≡ false
      → str_eq "v" id_key ≡ false
      → str_eq time_key id_key ≡ false
      → is_naive time ≡ false
      → is_in_range time.instant ≡ true
      → ltb id (2 ^ 128) ≡ true
      → (text : String) × (encode_keyset lib time_key id_key time id ≡ ok text)
        × (is_empty text ≡ false)
        × (decode_keyset lib refused time_key id_key text ≡ ok (time.instant, id))
  unfolding encode_keyset decode_keyset astimezone_utc keyset_of datetime_of uuid_of
  keyset-round_trip refused time_key id_key time id v1 v2 different aware range small =
      let utc : Datetime = record { instant = time.instant; utcoffset = some (pos 0) } in
      let (out, read, first, second) =
        cursor_payload-dumped time_key (lib.isoformat utc) id_key (lib.str_uuid id) v1 v2
          different in
      (
        _,
        rw (aware, range) refl,
        not_empty time_key (lib.isoformat utc) id_key (lib.str_uuid id) v1 v2 different,
        rw (read, first, second, doc.datetime time.instant range, doc.uuid id small, range) refl,
      )
