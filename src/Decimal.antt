-- ===== src/Decimal.antt =====
-- The third-party crates that the trading core computes with. `rust_decimal` is an interface: the
-- operators that the code calls, and of its documentation only that the comparison is a total order.
-- The operators are total here: the crate's `+`, `-`, `*` and `/` panic where a result does not fit its
-- 96 bits, and `/` on a divisor of zero, so what is shown of code that calculates is shown of calls
-- where no operator overflows. A division by zero is modelled as a panic where a strategy could have it.
use loss_function.Prelude.{Bool, true, not, ◌≡◌, ◌⊎◌, ◌&&◌, List, foldl, arith}
use loss_function.Prelude.Int.{ℤ}

pub record Decimal (P : Type 0) : Type 0 where
  -- `Decimal::ZERO`, `Decimal::ONE`
  pub zero : P
  pub one : P
  -- `Decimal::from(i64)`
  pub of_int : ℤ → P
  pub add : P → P → P
  pub sub : P → P → P
  pub mul : P → P → P
  pub div : P → P → P
  pub neg : P → P
  -- `a <= b`
  pub le : P → P → Bool
  pub le_refl : (a : P) → le a a ≡ true
  pub le_trans : (a b c : P) → le a b ≡ true → le b c ≡ true → le a c ≡ true
  pub le_total : (a b : P) → (le a b ≡ true) ⊎ (le b a ≡ true)

module _ {P : Type 0} ⦃d : Decimal P⦄ where
  -- `a < b`, the negation of `b <= a` in a total order
  abbrev pub lt : P → P → Bool
  lt a b = not (d.le b a)

  -- `is_zero()`
  abbrev pub is_zero : P → Bool
  is_zero a = d.le a d.zero && d.le d.zero a

  -- `Iterator::sum`
  abbrev pub sum : List P → P
  sum = foldl d.add d.zero

  pub le_of_lt : (a b : P) → lt a b ≡ true → d.le a b ≡ true
  le_of_lt a b h = ground (arith, d.le_total a b)
