-- ===== src/Api/Body.antt =====
-- `read_bounded_body` of app/api/routes.py.
use mathlib.Core.List.{append_assoc, append-nil}
use github_webhook_monitor.Prelude.{
  ℕ, ◌+◌, List, [], ◌∷◌, ◌++◌, Bytes, length, length-append, leb, ltb, if◌then◌else◌, ◌≡◌, refl, ap,
  sym, ◌∙◌, subst₂, ◌≤◌, arith, Bool, Bool-cases, inl, inr,
}
use github_webhook_monitor.Errors.{Result, ok, err, http_exception, client_disconnect}

-- What `request.stream()` gives: the chunks that arrive and, where the client leaves before the end
-- of the body, the exception ClientDisconnect behind them.
pub record Stream : Type 0 where
  pub chunks : List Bytes
  pub disconnects : Bool

-- `b"".join(chunks)`
unfoldable pub join_chunks : List Bytes → Bytes
join_chunks [] = []
join_chunks (chunk ∷ chunks) = chunk ++ join_chunks chunks

-- The loop over `request.stream()`, of which `stream` is left: `total_size` bytes have been read into
-- `chunks`.
unfoldable pub read_chunks :
    ℕ → (disconnects : Bool) → (total_size : ℕ) → (chunks : List Bytes) → List Bytes → Result Bytes
unfolding join_chunks
read_chunks max_body_bytes disconnects total_size chunks [] =
    if disconnects then err client_disconnect else ok (join_chunks chunks)
read_chunks max_body_bytes disconnects total_size chunks (chunk ∷ stream) =
    let total = total_size + length chunk in
    let rest = read_chunks max_body_bytes disconnects total (chunks ++ (chunk ∷ [])) stream in
    if ltb max_body_bytes total then err (http_exception 413 "Payload too large" []) else rest

unfoldable pub read_bounded_body : Stream → ℕ → Result Bytes
unfolding read_chunks
read_bounded_body stream max_body_bytes =
    read_chunks max_body_bytes stream.disconnects 0 [] stream.chunks

-- The answer 413 if what has arrived is larger than the limit; or else the exception of a client that
-- left, or the body.
abbrev pub bounded_body : ℕ → Bool → Bytes → Result Bytes
bounded_body max_body_bytes disconnects body =
    if leb (length body) max_body_bytes
    then (if disconnects then err client_disconnect else ok body)
    else err (http_exception 413 "Payload too large" [])

join_chunks-append :
    (xs ys : List Bytes) → join_chunks (xs ++ ys) ≡ join_chunks xs ++ join_chunks ys
unfolding join_chunks
join_chunks-append [] ys = refl
join_chunks-append (x ∷ xs) ys =
    ap (λ r. x ++ r) (join_chunks-append xs ys)
    ∙ sym (append_assoc x (join_chunks xs) (join_chunks ys))

join_chunks-snoc :
    (xs : List Bytes) (x : Bytes) → join_chunks (xs ++ (x ∷ [])) ≡ join_chunks xs ++ x
unfolding join_chunks
join_chunks-snoc xs x =
    join_chunks-append xs (x ∷ []) ∙ ap (λ r. join_chunks xs ++ r) (append-nil x)

read_next :
    (limit : ℕ) (gone : Bool) (chunks : List Bytes) (x : Bytes) (stream : List Bytes)
    → length (join_chunks chunks) + length x ≤ limit
    → (length (join_chunks (chunks ++ (x ∷ []))) ≤ limit
        → read_chunks limit gone
            (length (join_chunks (chunks ++ (x ∷ []))))
            (chunks ++ (x ∷ []))
            stream
          ≡ bounded_body limit gone (join_chunks (chunks ++ (x ∷ [])) ++ join_chunks stream))
    → read_chunks limit gone (length (join_chunks chunks) + length x) (chunks ++ (x ∷ [])) stream
      ≡ bounded_body limit gone (join_chunks chunks ++ (x ++ join_chunks stream))
read_next limit gone chunks x stream h ih =
    let snoc = join_chunks-snoc chunks x in
    let size = ap length snoc ∙ length-append (join_chunks chunks) x in
    subst₂
      (λ n body.
        read_chunks limit gone n (chunks ++ (x ∷ [])) stream ≡ bounded_body limit gone body)
      size
      (ap (λ r. r ++ join_chunks stream) snoc
        ∙ append_assoc (join_chunks chunks) x (join_chunks stream))
      (ih (omega (arith, size)))

read_chunks-eq :
    (limit : ℕ) (gone : Bool) (chunks stream : List Bytes)
    → length (join_chunks chunks) ≤ limit
    → read_chunks limit gone (length (join_chunks chunks)) chunks stream
      ≡ bounded_body limit gone (join_chunks chunks ++ join_chunks stream)
unfolding read_chunks join_chunks
read_chunks-eq limit gone chunks [] h = rw append-nil (ground arith)
read_chunks-eq limit gone chunks (x ∷ stream) h =
    elim (Bool-cases (ltb limit (length (join_chunks chunks) + length x))) [
      | inl e ↦ rw e (
          ground (
            arith,
            length-append (join_chunks chunks) (x ++ join_chunks stream),
            length-append x (join_chunks stream),
          ))
      | inr e ↦ rw e (
          read_next limit gone chunks x stream (ground arith)
            (read_chunks-eq limit gone (chunks ++ (x ∷ [])) stream))
    ]

-- Reading a stream up to a limit gives its chunks joined, if they are together within the limit and
-- the client stays to the end; if they are within the limit and the client leaves, it raises
-- ClientDisconnect; otherwise the answer is 413.
pub read_bounded_body-eq :
    (stream : Stream) (max_body_bytes : ℕ)
    → read_bounded_body stream max_body_bytes
      ≡ bounded_body max_body_bytes stream.disconnects (join_chunks stream.chunks)
unfolding read_bounded_body join_chunks
read_bounded_body-eq stream limit =
    read_chunks-eq limit stream.disconnects [] stream.chunks (omega arith)
