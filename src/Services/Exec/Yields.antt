-- ===== src/Services/Exec/Yields.antt =====
-- Methods under an invariant of the world.
use github_webhook_monitor.Prelude.{◌≡◌, refl, arith}
use github_webhook_monitor.Errors.{Result, ok, err}
use github_webhook_monitor.Services.Exec.{Exec, pure, continue, ◌>>=◌}

module _ {ℓ κ} {W : Type ℓ} (Inv : W → Type κ) where
  -- The value, if one is returned.
  abbrev pub Returns {μ ν} : {A : Type μ} → (A → Type ν) → Result A → Type (μ ⊔ ν)
  Returns {A = A} P r = (a : A) → r ≡ ok a → P a

  -- The method keeps the invariant, whether it returns or raises, and what it returns has the
  -- property.
  abbrev pub Yields {μ ν} : {A : Type μ} → (A → Type ν) → Exec W A → Type (ℓ ⊔ κ ⊔ μ ⊔ ν)
  Yields P m = (w : W) → Inv w → Inv ((m w).1) × Returns P ((m w).0)

  pub Yields-pure {μ ν} :
      {A : Type μ} (P : A → Type ν) (r : Result A) → Returns P r → Yields P (pure r)
  Yields-pure P r h w inv = (inv, h)

  continue-Yields {μ ν ρ τ} :
      {A : Type μ} {B : Type ν} (P : A → Type ρ) (Q : B → Type τ)
      → (r : Result A) (w : W) (f : A → Exec W B) → Inv w
      → Returns P r
      → ((a : A) → P a → Yields Q (f a))
      → Inv ((continue r w f).1) × Returns Q ((continue r w f).0)
  continue-Yields P Q (ok a) w f inv h next = next a (h a refl) w inv
  continue-Yields P Q (err e) w f inv h next = (inv, λ b g. absurd (ground (arith, g)))

  pub Yields-bind {μ ν ρ τ} :
      {A : Type μ} {B : Type ν} (P : A → Type ρ) (Q : B → Type τ)
      → (m : Exec W A) (f : A → Exec W B) → Yields P m
      → ((a : A) → P a → Yields Q (f a))
      → Yields Q (m >>= f)
  Yields-bind P Q m f h next w inv =
      let (inv', first) = h w inv in continue-Yields P Q (m w).0 (m w).1 f inv' first next

  pub Yields-weaken {μ ρ τ} :
      {A : Type μ} (P : A → Type ρ) (Q : A → Type τ)
      → (m : Exec W A) → ((a : A) → P a → Q a)
      → Yields P m
      → Yields Q m
  Yields-weaken P Q m imp h w inv = let (inv', r) = h w inv in (inv', λ a e. imp a (r a e))
