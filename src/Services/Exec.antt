-- ===== src/Services/Exec.antt =====
-- An asynchronous method: it changes the world `W`, and returns or raises. At each `await` other
-- tasks may run, so what the awaited call does to the world is theirs too.
pub mod Yields
use github_webhook_monitor.Prelude.{◌≡◌, ◌⊎◌, inl, inr, ap, refl, arith}
use github_webhook_monitor.Errors.{Exn, Result, ok, err, err-injective}

abbrev pub Exec {ℓ κ} : Type ℓ → Type κ → Type (ℓ ⊔ κ)
Exec W A = W → Result A × W

module _ {ℓ κ} {W : Type ℓ} {A : Type κ} where
  abbrev pub return : A → Exec W A
  return a w = (ok a, w)

  abbrev pub raise : Exn → Exec W A
  raise e w = (err e, w)

  -- a step that leaves the world alone
  abbrev pub pure : Result A → Exec W A
  pure r w = (r, w)

module _ {ℓ κ μ} {W : Type ℓ} {A : Type κ} {B : Type μ} where
  abbrev pub continue : Result A → W → (A → Exec W B) → Result B × W
  continue (ok a) w f = f a w
  continue (err e) w f = (err e, w)

  infixl 5 ◌>>=◌
  abbrev pub ◌>>=◌ : Exec W A → (A → Exec W B) → Exec W B
  ◌>>=◌ m f w = continue (m w).0 (m w).1 f

  pub continue-ran :
      (r : Result A) (w : W) (f : A → Exec W B) {b : B}
      → (continue r w f).0 ≡ ok b
      → (a : A) × (r ≡ ok a) × (continue r w f ≡ f a w)
  continue-ran (ok a) w f h = (a, refl, refl)
  continue-ran (err e) w f h = absurd (ground arith)

  -- A chain that returns has returned at its first step, and then is the rest.
  pub bind-ran :
      (m : Exec W A) (f : A → Exec W B) (w : W) {b : B}
      → ((m >>= f) w).0 ≡ ok b
      → (a : A) × ((m w).0 ≡ ok a) × ((m >>= f) w ≡ f a (m w).1)
  bind-ran m f w h = continue-ran (m w).0 (m w).1 f h

  continue-raised :
      (r : Result A) (w : W) (f : A → Exec W B) {x : Exn}
      → (continue r w f).0 ≡ err x
      → (r ≡ err x) ⊎ ((a : A) × (r ≡ ok a) × ((f a w).0 ≡ err x))
  continue-raised (ok a) w f h = inr (a, refl, h)
  continue-raised (err e) w f h = inl (ap err (err-injective h))

  -- A chain that raises has raised at its first step, or after that.
  pub bind-raised :
      (m : Exec W A) (f : A → Exec W B) (w : W) {x : Exn}
      → ((m >>= f) w).0 ≡ err x
      → ((m w).0 ≡ err x) ⊎ ((a : A) × ((m w).0 ≡ ok a) × ((f a (m w).1).0 ≡ err x))
  bind-raised m f w h = continue-raised (m w).0 (m w).1 f h
