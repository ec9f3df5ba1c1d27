-- ===== src/Prelude/Keys.antt =====
-- Equality and order of map keys, as interfaces.
use mathlib.Core.Path.{◌≡◌, refl}
use mathlib.Core.Logic.{◌↔◌, ◌≢◌}
use mathlib.Core.Bool.{Bool, true, false}
use native.Mathlib.Omega.{arith}

pub record Eq {ℓ} (K : Type ℓ) : Type ℓ where
  pub beq : K → K → Bool
  pub beq_iff : (a b : K) → (beq a b ≡ true) ↔ (a ≡ b)

-- Rust's derived `Ord`, as its strict test.
pub record Less {ℓ} (K : Type ℓ) : Type ℓ where
  pub less : K → K → Bool

module _ {ℓ} {K : Type ℓ} ⦃e : Eq K⦄ where
  pub beq_refl : (a : K) → e.beq a a ≡ true
  beq_refl a = (e.beq_iff a a).1 refl

  pub beq_ne : (a b : K) → a ≢ b → e.beq a b ≡ false
  beq_ne a b h = ground (arith, e.beq_iff a b)
