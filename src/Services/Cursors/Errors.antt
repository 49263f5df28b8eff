-- ===== src/Services/Cursors/Errors.antt =====
-- What the decoding of a cursor can raise.
use github_webhook_monitor.Prelude.{
  Bool, true, false, String, Option, none, some, ◌≡◌, ◌⊎◌, inl, inr, refl, ap, subst, arith, pos,
  if◌then◌else◌,
}
use github_webhook_monitor.Errors.{
  Exn, Result, ok, err, value_error, type_error, key_error, attribute_error, overflow_error,
  or_raise, raise_if, ◌>>=◌, err-injective,
}
use github_webhook_monitor.Domain.Datetime.{Datetime, is_naive}
use github_webhook_monitor.Domain.Json.{
  Json, null, bool, int, real, str, arr, obj, Fields, get_item, as_dict,
}
use github_webhook_monitor.Services.Webhooks.{Loaded, value, json_decode_error, raised}
use github_webhook_monitor.Storage.Keyset.{Key}
use github_webhook_monitor.Services.Cursors.{
  TextLibrary, is_in_range, astimezone_utc, cursor_error, excepted_as, loaded_value, cursor_payload,
  uuid_of, datetime_of, keyset_of, decode_keyset,
}

-- The exceptions of the statements under the `try`.
data Raised (lib : TextLibrary) : Exn → Type 0 where
  of_value : Raised lib value_error
  of_key : Raised lib key_error
  of_type : Raised lib type_error
  of_attribute : Raised lib attribute_error
  of_overflow : Raised lib overflow_error
  of_loading : (text : String) (e : Exn) → lib.loaded text ≡ raised e → Raised lib e

-- The exceptions that are not turned into a refused cursor: an id that is no text, a time without a
-- UTC form, and what `json.loads` raises other than a ValueError.
pub data Escapes (lib : TextLibrary) (refused : Exn) : Exn → Type 0 where
  no_text : Escapes lib refused attribute_error
  no_utc_form : Escapes lib refused overflow_error
  loading :
      (text : String) (e : Exn)
      → lib.loaded text ≡ raised e
      → Escapes lib refused (cursor_error refused e)

module _ (lib : TextLibrary) where
  abbrev Only {ℓ} : {A : Type ℓ} → Result A → Type ℓ
  Only r = (x : Exn) → r ≡ err x → Raised lib x

  Only-bind {ℓ κ} :
      {A : Type ℓ} {B : Type κ} (m : Result A) (f : A → Result B)
      → Only m
      → ((a : A) → Only (f a))
      → Only (m >>= f)
  Only-bind (ok a) f hm hf x h = hf a x h
  Only-bind (err e) f hm hf x h = hm x (ap err (err-injective h))

  Only-ok {ℓ} : {A : Type ℓ} (a : A) → Only (ok a)
  Only-ok a x h = absurd (ground arith)

  Only-err {ℓ} : {A : Type ℓ} (e : Exn) → Raised lib e → Only {A = A} (err e)
  Only-err e r x h = subst (Raised lib) (err-injective h) r

  or_raise-Only {ℓ} : {A : Type ℓ} (o : Option A) (e : Exn) → Raised lib e → Only (or_raise o e)
  or_raise-Only none e r = Only-err e r
  or_raise-Only (some a) e r = Only-ok a

  raise_if-Only : (b : Bool) (e : Exn) → Raised lib e → Only (raise_if b e)
  raise_if-Only true e r = Only-err e r
  raise_if-Only false e r = Only-ok tt

  loaded_value-Only : (text : String) (l : Loaded) → lib.loaded text ≡ l → Only (loaded_value l)
  loaded_value-Only text (value v) e = Only-ok v
  loaded_value-Only text json_decode_error e = Only-err value_error of_value
  loaded_value-Only text (raised x) e = Only-err x (of_loading text x e)

  uuid_of-Only : (v : Json) → Only (uuid_of lib v)
  unfolding uuid_of
  uuid_of-Only (str text) = or_raise-Only (lib.parse_uuid text) value_error of_value
  uuid_of-Only null = Only-err type_error of_type
  uuid_of-Only (bool b) = Only-err attribute_error of_attribute
  uuid_of-Only (int n) = Only-err attribute_error of_attribute
  uuid_of-Only (real r) = Only-err attribute_error of_attribute
  uuid_of-Only (arr xs) = Only-err attribute_error of_attribute
  uuid_of-Only (obj o) = Only-err attribute_error of_attribute

  datetime_of-Only : (v : Json) → Only (datetime_of lib v)
  unfolding datetime_of
  datetime_of-Only (str text) = or_raise-Only (lib.fromisoformat text) value_error of_value
  datetime_of-Only null = Only-err type_error of_type
  datetime_of-Only (bool b) = Only-err type_error of_type
  datetime_of-Only (int n) = Only-err type_error of_type
  datetime_of-Only (real r) = Only-err type_error of_type
  datetime_of-Only (arr xs) = Only-err type_error of_type
  datetime_of-Only (obj o) = Only-err type_error of_type

  within-Only : (b : Bool) (t : Datetime) → Only (if b then ok t else err overflow_error)
  within-Only true t = Only-ok t
  within-Only false t = Only-err overflow_error of_overflow

  astimezone_utc-Only : (t : Datetime) → Only (astimezone_utc lib.from_local t)
  unfolding astimezone_utc
  astimezone_utc-Only t =
      let instant = if is_naive t then lib.from_local t.instant else t.instant in
      within-Only (is_in_range instant) (record { instant = instant; utcoffset = some (pos 0) })

  cursor_payload-Only : (cursor : String) → Only (cursor_payload lib cursor)
  unfolding cursor_payload
  cursor_payload-Only cursor = Only-bind _ _ (raise_if-Only _ value_error of_value) λ u.
      Only-bind _ _ (loaded_value-Only _ _ refl) λ loaded.
        Only-bind _ _ (or_raise-Only (as_dict loaded) value_error of_value)
          λ fields. Only-bind _ _ (raise_if-Only _ value_error of_value) λ v. Only-ok fields

  keyset_of-Only :
      (time_key id_key : String) (fields : Fields) → Only (keyset_of lib time_key id_key fields)
  unfolding keyset_of
  keyset_of-Only time_key id_key fields =
      Only-bind _ _
        (Only-bind _ _ (or_raise-Only (get_item time_key fields) key_error of_key) datetime_of-Only)
        λ time.
          Only-bind _ _
            (Only-bind _ _ (or_raise-Only (get_item id_key fields) key_error of_key) uuid_of-Only)
            λ id.
              Only-bind _ _ (raise_if-Only _ value_error of_value)
                λ v. Only-bind _ _ (astimezone_utc-Only time) λ utc. Only-ok _

  handled :
      (refused x : Exn)
      → Raised lib x
      → (cursor_error refused x ≡ refused) ⊎ Escapes lib refused (cursor_error refused x)
  unfolding cursor_error
  handled refused x of_value = inl refl
  handled refused x of_key = inl refl
  handled refused x of_type = inl refl
  handled refused x of_attribute = inr no_text
  handled refused x of_overflow = inr no_utc_form
  handled refused x (of_loading text e h) = inr (loading text e h)

  handled_as :
      (refused : Exn) (r : Result Key) (x : Exn)
      → Only r
      → excepted_as refused r ≡ err x
      → (x ≡ refused) ⊎ Escapes lib refused x
  handled_as refused (ok key) x only h = absurd (ground arith)
  handled_as refused (err e) x only h =
      subst (λ y. (y ≡ refused) ⊎ Escapes lib refused y) (err-injective h)
        (handled refused e (only e refl))

  -- Decoding raises the error of a refused cursor, or an exception that escapes.
  pub decode_keyset-errors :
      (refused : Exn) (time_key id_key cursor : String) (x : Exn)
      → decode_keyset lib refused time_key id_key cursor ≡ err x
      → (x ≡ refused) ⊎ Escapes lib refused x
  unfolding decode_keyset
  decode_keyset-errors refused time_key id_key cursor x h =
      handled_as refused _ x
        (Only-bind _ _ (cursor_payload-Only cursor) (keyset_of-Only time_key id_key)) h
