-- ===== src/Api/Webhook/Refusals.antt =====
-- The errors that a webhook request can be answered with.
use github_webhook_monitor.Prelude.{
  if◌then◌else◌, ℕ, ℤ, pos, negsuc, String, Bool, true, false, Option, some, none, List, Bytes,
  is_blank, parse_int, leb_ℤ, leb, length, ◌≡◌, ◌⊎◌, inl, inr, refl, arith,
}
use github_webhook_monitor.Errors.{
  Exn, Result, ok, err, raise_if, http_exception, client_disconnect, ◌>>=◌,
}
use github_webhook_monitor.Api.Body.{Stream, join_chunks, read_bounded_body, read_bounded_body-eq}
use github_webhook_monitor.Api.Headers.{
  require_non_empty_header, positive_integer, require_positive_integer_header,
  check_declared_length, validate_content_length, validate_installation_target,
}
use github_webhook_monitor.Api.Webhook.{[], WebhookRequest, checked_delivery}

abbrev pub IsHttp : Exn → Type 0
IsHttp x =
    (status : ℕ) × (detail : String) × (headers : List (String × String)) × (x
      ≡ http_exception status detail headers)

-- A computation that raises no other exception than an HTTP error.
abbrev pub HttpOnly {ℓ} : {A : Type ℓ} → Result A → Type ℓ
HttpOnly r = (x : Exn) → r ≡ err x → IsHttp x

HttpOnly-bind {ℓ κ} :
    {A : Type ℓ} {B : Type κ} (m : Result A) (f : A → Result B)
    → HttpOnly m
    → ((a : A) → HttpOnly (f a))
    → HttpOnly (m >>= f)
HttpOnly-bind (ok a) f hm hf x h = hf a x h
HttpOnly-bind (err e) f hm hf x h = hm x (ground (arith, h))

HttpOnly-ok {ℓ} : {A : Type ℓ} (a : A) → HttpOnly (ok a)
HttpOnly-ok a x h = absurd (ground arith)

HttpOnly-err {ℓ} :
    {A : Type ℓ} (n : ℕ) (s : String) (hs : List (String × String))
    → HttpOnly {A = A} (err (http_exception n s hs))
HttpOnly-err n s hs x h = (n, s, hs, ground arith)

HttpOnly-if {ℓ} :
    {A : Type ℓ} (b : Bool) (r r' : Result A)
    → HttpOnly r
    → HttpOnly r'
    → HttpOnly (if b then r else r')
HttpOnly-if true r r' h h' = h
HttpOnly-if false r r' h h' = h'

raise_if-HttpOnly : (b : Bool) (n : ℕ) (s : String) → HttpOnly (raise_if b (http_exception n s []))
raise_if-HttpOnly true n s = HttpOnly-err n s []
raise_if-HttpOnly false n s = HttpOnly-ok tt

require_non_empty_header-HttpOnly :
    (value : Option String) (detail : String) → HttpOnly (require_non_empty_header value detail)
unfolding require_non_empty_header
require_non_empty_header-HttpOnly none detail = HttpOnly-err 400 detail []
require_non_empty_header-HttpOnly (some value) detail =
    HttpOnly-if (is_blank value) _ _ (HttpOnly-err 400 detail []) (HttpOnly-ok value)

positive_integer-HttpOnly :
    (header detail : String) (o : Option ℤ)
    → parse_int header ≡ o
    → HttpOnly (positive_integer header detail)
unfolding positive_integer
positive_integer-HttpOnly header detail none e =
    rw (e, positive_integer) (HttpOnly-err 400 detail [])
positive_integer-HttpOnly header detail (some n) e =
    rw (e, positive_integer)
      (HttpOnly-if (leb_ℤ n (pos 0)) _ _ (HttpOnly-err 400 detail []) (HttpOnly-ok header))

require_positive_integer_header-HttpOnly :
    (value : Option String) (detail : String)
    → HttpOnly (require_positive_integer_header value detail)
unfolding require_positive_integer_header
require_positive_integer_header-HttpOnly value detail =
    HttpOnly-bind (require_non_empty_header value detail) _
      (require_non_empty_header-HttpOnly value detail)
      (λ header. positive_integer-HttpOnly header detail (parse_int header) refl)

validate_installation_target-HttpOnly :
    (i t : Option String) → HttpOnly (validate_installation_target i t)
unfolding validate_installation_target
validate_installation_target-HttpOnly none none = HttpOnly-ok _
validate_installation_target-HttpOnly none (some t) = HttpOnly-err 400 _ []
validate_installation_target-HttpOnly (some i) none = HttpOnly-err 400 _ []
validate_installation_target-HttpOnly (some i) (some t) =
    HttpOnly-bind _ _ (require_positive_integer_header-HttpOnly (some i) _)
      λ a. HttpOnly-bind _ _ (require_non_empty_header-HttpOnly (some t) _) λ b. HttpOnly-ok _

check_declared_length-HttpOnly :
    (o : Option ℤ) (limit : ℕ) → HttpOnly (check_declared_length o limit)
unfolding check_declared_length
check_declared_length-HttpOnly none limit = HttpOnly-err 400 _ []
check_declared_length-HttpOnly (some (negsuc n)) limit = HttpOnly-err 400 _ []
check_declared_length-HttpOnly (some (pos n)) limit =
    HttpOnly-if (leb n limit) _ _ (HttpOnly-ok tt) (HttpOnly-err 413 _ [])

validate_content_length-HttpOnly :
    (value : Option String) (limit : ℕ) → HttpOnly (validate_content_length value limit)
unfolding validate_content_length
validate_content_length-HttpOnly none limit = HttpOnly-ok tt
validate_content_length-HttpOnly (some value) limit =
    check_declared_length-HttpOnly (parse_int value) limit

-- A computation that raises only HTTP errors and, if the client has left, ClientDisconnect.
abbrev pub Left {ℓ} : {A : Type ℓ} → (disconnects : Bool) → Result A → Type ℓ
Left disconnects r =
    (x : Exn) → r ≡ err x → IsHttp x ⊎ ((x ≡ client_disconnect) × (disconnects ≡ true))

HttpOnly-Left {ℓ} : {A : Type ℓ} (gone : Bool) (r : Result A) → HttpOnly r → Left gone r
HttpOnly-Left gone r h x e = inl (h x e)

Left-bind {ℓ κ} :
    {A : Type ℓ} {B : Type κ} (gone : Bool) (m : Result A) (f : A → Result B)
    → Left gone m
    → ((a : A) → Left gone (f a))
    → Left gone (m >>= f)
Left-bind gone (ok a) f hm hf x h = hf a x h
Left-bind gone (err e) f hm hf x h = hm x (ground (arith, h))

Http-bind {ℓ κ} :
    {A : Type ℓ} {B : Type κ} (gone : Bool) (m : Result A) (f : A → Result B)
    → HttpOnly m
    → ((a : A) → Left gone (f a))
    → Left gone (m >>= f)
Http-bind gone m f hm hf = Left-bind gone m f (HttpOnly-Left gone m hm) hf

bounded-Left :
    (gone fits : Bool) (body : Bytes)
    → Left gone (
        if fits
        then (if gone then err client_disconnect else ok body)
        else err (http_exception 413 "Payload too large" []))
bounded-Left gone false body x h = HttpOnly-Left gone _ (HttpOnly-err 413 _ []) x h
bounded-Left true true body x h = inr (ground arith, refl)
bounded-Left false true body x h = HttpOnly-Left false _ (HttpOnly-ok body) x h

read_bounded_body-Left :
    (stream : Stream) (limit : ℕ) → Left stream.disconnects (read_bounded_body stream limit)
read_bounded_body-Left stream limit =
    rw (read_bounded_body-eq stream limit)
      (bounded-Left stream.disconnects (leb (length (join_chunks stream.chunks)) limit) _)

pub checked_delivery-Left :
    (limit : ℕ) (q : WebhookRequest) → Left q.stream.disconnects (checked_delivery limit q)
unfolding checked_delivery
checked_delivery-Left limit q =
    let gone = q.stream.disconnects in
    Http-bind gone _ _ (raise_if-HttpOnly _ 415 _) λ u.
      Http-bind gone _ _ (require_non_empty_header-HttpOnly _ _) λ event.
        Http-bind gone _ _ (require_non_empty_header-HttpOnly _ _) λ guid.
          Http-bind gone _ _ (require_positive_integer_header-HttpOnly _ _) λ hook.
            Http-bind gone _ _ (validate_installation_target-HttpOnly _ _) λ target.
              Http-bind gone _ _ (validate_content_length-HttpOnly _ _) λ v.
                Left-bind gone _ _ (read_bounded_body-Left _ _)
                  λ body. HttpOnly-Left gone _ (HttpOnly-ok _)
