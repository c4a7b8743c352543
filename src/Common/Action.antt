-- ===== src/Common/Action.antt =====
-- Code that changes a state, and that returns, fails with an error or panics.
use mathlib.Core.Path.{◌≡◌, refl, ap}
use mathlib.Core.Logic.{◌⊎◌, inl, inr}
use native.Mathlib.Omega.{arith}
use mathlib.Core.Option.{Option, none, some}
use p2p_verse.Common.Outcome.{Error, Result, ok, err}

pub data Ending {ℓ} (T : Type ℓ) : Type ℓ where
  returns : T → Ending T
  fails : Error → Ending T
  panics : Ending T

abbrev pub Action {ℓ κ} : Type ℓ → Type κ → Type (ℓ ⊔ κ)
Action W T = W → W × Ending T

abbrev pub of_result {ℓ} : {T : Type ℓ} → Result T → Ending T
of_result (ok x) = returns x
of_result (err e) = fails e

-- `if err != nil { return err }`
abbrev pub unit_or : Option Error → Result (Unit {0})
unit_or none = ok tt
unit_or (some e) = err e

pub returns_injective {ℓ} : {T : Type ℓ} (x y : T) → Ending.returns x ≡ Ending.returns y → x ≡ y
returns_injective x y h = cc

module _ {ℓ κ λ'} {W : Type ℓ} {T : Type κ} {U : Type λ'} where
  -- What follows an action that has ended.
  abbrev pub resume : Ending T → (T → Action W U) → Action W U
  resume (returns x) f w = f x w
  resume (fails e) f w = (w, fails e)
  resume panics f w = (w, panics)

  infixl 5 ◌>>=◌
  unfoldable pub ◌>>=◌ : Action W T → (T → Action W U) → Action W U
  (act >>= f) w = resume (act w).1 f (act w).0

  -- What returns has returned at its first step.
  pub returns-bind :
      (f : Action W T) (h : T → Action W U) (w u : W) (y : U)
      → (f >>= h) w ≡ (u, returns y)
      → (x : T) × (v : W) × (f w ≡ (v, returns x)) × (h x v ≡ (u, returns y))
  unfolding ◌>>=◌
  returns-bind f h w u y e = go (f w) refl e
    where
      go :
          (r : W × Ending T)
          → f w ≡ r
          → resume r.1 h r.0 ≡ (u, returns y)
          → (x : T) × (v : W) × (f w ≡ (v, returns x)) × (h x v ≡ (u, returns y))
      go (v, returns x) k l = (x, v, k, l)
      go (v, fails z) k l = cc
      go (v, panics) k l = cc

  -- What fails has failed at its first step, or after it.
  pub fails-bind :
      (f : Action W T) (h : T → Action W U) (w u : W) (z : Error)
      → (f >>= h) w ≡ (u, fails z)
      → (f w ≡ (u, fails z)) ⊎ ((x : T) × (v : W) × (f w ≡ (v, returns x)) × (h x v ≡ (u, fails z)))
  unfolding ◌>>=◌
  fails-bind f h w u z e = go (f w) refl e
    where
      go :
          (r : W × Ending T)
          → f w ≡ r
          → resume r.1 h r.0 ≡ (u, fails z)
          → (f w ≡ (u, fails z))
            ⊎ ((x : T) × (v : W) × (f w ≡ (v, returns x)) × (h x v ≡ (u, fails z)))
      go (v, returns x) k l = inr (x, v, k, l)
      go (v, fails y) k l = inl (rw k (ground (arith, l)))
      go (v, panics) k l = absurd (ground (arith, l))

  -- Where the first step returns, the rest follows.
  pub bind-returns :
      (f : Action W T) (h : T → Action W U) (w v : W) (x : T)
      → f w ≡ (v, returns x)
      → (f >>= h) w ≡ h x v
  unfolding ◌>>=◌
  bind-returns f h w v x e = ap (λ r. resume r.1 h r.0) e
