-- ===== src/Prelude/Int.antt =====
-- Signed integers over the native numbers, and Rust's `i64` as an integer that wraps at 64 bits
-- (the release profile, which has no overflow checks).
use Prim.Native.Nat.{ℕ, suc, ◌+◌, ◌-◌, ◌*◌, ◌/◌, ◌%◌, ◌^◌, ◌≤◌, ◌<◌}
use mathlib.Core.Path.{ap, ◌≡◌, refl}
use mathlib.Core.Logic.{◌⊎◌, inl, inr}
use mathlib.Core.Bool.{Bool}
use native.Mathlib.Omega.{arith}
use loss_function.Prelude.Tests.{ltb, leb, ◌==◌, if◌then◌else◌}

-- `negsuc n` is -(n + 1).
pub data ℤ : Type 0 where
  pos : ℕ → ℤ
  negsuc : ℕ → ℤ

abbrev pub pos_part : ℤ → ℕ
pos_part (pos n) = n
pos_part (negsuc n) = 0

abbrev pub neg_part : ℤ → ℕ
neg_part (pos n) = 0
neg_part (negsuc n) = suc n

-- a - b, as an integer.
abbrev pub sub_ℕ : ℕ → ℕ → ℤ
sub_ℕ a b = if leb b a then pos (a - b) else negsuc (b - a - 1)

infixl 65 ◌+ℤ◌ ◌-ℤ◌
infixl 70 ◌*ℤ◌
infix 50 ◌≤ℤ◌ ◌<ℤ◌
unfoldable pub ◌+ℤ◌ : ℤ → ℤ → ℤ
a +ℤ b = sub_ℕ (pos_part a + pos_part b) (neg_part a + neg_part b)

unfoldable pub ◌-ℤ◌ : ℤ → ℤ → ℤ
a -ℤ b = sub_ℕ (pos_part a + neg_part b) (neg_part a + pos_part b)

unfoldable pub ◌*ℤ◌ : ℤ → ℤ → ℤ
a *ℤ b =
    sub_ℕ (pos_part a * pos_part b + neg_part a * neg_part b)
      (pos_part a * neg_part b + neg_part a * pos_part b)

abbrev pub ◌≤ℤ◌ : ℤ → ℤ → Type 0
a ≤ℤ b = pos_part a + neg_part b ≤ pos_part b + neg_part a

abbrev pub ◌<ℤ◌ : ℤ → ℤ → Type 0
a <ℤ b = pos_part a + neg_part b < pos_part b + neg_part a

abbrev pub ltb_ℤ : ℤ → ℤ → Bool
ltb_ℤ a b = ltb (pos_part a + neg_part b) (pos_part b + neg_part a)

abbrev pub leb_ℤ : ℤ → ℤ → Bool
leb_ℤ a b = leb (pos_part a + neg_part b) (pos_part b + neg_part a)

abbrev pub eqb_ℤ : ℤ → ℤ → Bool
eqb_ℤ a b = pos_part a + neg_part b == pos_part b + neg_part a

-- `i64::min`
abbrev pub min_ℤ : ℤ → ℤ → ℤ
min_ℤ a b = if leb_ℤ a b then a else b

pub +ℤ_parts :
    (a b : ℤ)
    → pos_part (a +ℤ b) + neg_part a + neg_part b ≡ neg_part (a +ℤ b) + pos_part a + pos_part b
unfolding ◌+ℤ◌
+ℤ_parts a b = ground arith

pub -ℤ_parts :
    (a b : ℤ)
    → pos_part (a -ℤ b) + neg_part a + pos_part b ≡ neg_part (a -ℤ b) + pos_part a + neg_part b
unfolding ◌-ℤ◌
-ℤ_parts a b = ground arith

pub eq_of_parts : (a b : ℤ) → pos_part a + neg_part b ≡ pos_part b + neg_part a → a ≡ b
eq_of_parts a b h = ground arith

pub ruleset int_laws = (arith, +ℤ_parts, -ℤ_parts, eq_of_parts)

-- The values of an `i64`.
pub record InI64 (a : ℤ) : Type 0 where
  pub low : neg_part a ≤ 2 ^ 63
  pub high : pos_part a < 2 ^ 63

-- Two's complement wrap-around: the residue modulo 2^64, read in [-2^63, 2^63).
unfoldable pub wrap_i64 : ℤ → ℤ
wrap_i64 a = sub_ℕ ((pos_part a + 2 ^ 63 + (2 ^ 64 - neg_part a % 2 ^ 64)) % 2 ^ 64) (2 ^ 63)

pub wrap_i64-InI64 : (a : ℤ) → InI64 (wrap_i64 a)
unfolding wrap_i64
wrap_i64-InI64 a = ground arith

pub wrap_i64_id : (a : ℤ) → InI64 a → wrap_i64 a ≡ a
unfolding wrap_i64
wrap_i64_id (pos n) h = ground arith
wrap_i64_id (negsuc n) h = ground arith

-- `a + b` and `a - b` on `i64`.
unfoldable pub add_i64 : ℤ → ℤ → ℤ
add_i64 a b = wrap_i64 (a +ℤ b)

unfoldable pub sub_i64 : ℤ → ℤ → ℤ
sub_i64 a b = wrap_i64 (a -ℤ b)

pub add_i64_exact : (a b : ℤ) → InI64 (a +ℤ b) → add_i64 a b ≡ a +ℤ b
unfolding add_i64
add_i64_exact a b h = wrap_i64_id _ h

-- An integer is not positive and negative at once.
pub one_part : (a : ℤ) → (pos_part a ≡ 0) ⊎ (neg_part a ≡ 0)
one_part (pos n) = inr refl
one_part (negsuc n) = inl refl

-- A difference of two values of which the second is the smaller and none is negative is exact.
pub sub_i64_exact : (a b : ℤ) → InI64 a → pos 0 ≤ℤ b → b ≤ℤ a → sub_i64 a b ≡ a -ℤ b
unfolding sub_i64
sub_i64_exact a b h p q = wrap_i64_id _ (record {
  low = omega (int_laws, one_part (a -ℤ b));
  high = omega (int_laws, one_part (a -ℤ b));
})

-- Integers that differ by a multiple of 2^64 wrap to the same value.
residue_congr :
    (p n p' n' k l : ℕ)
    → p + n' + 2 ^ 64 * k ≡ p' + n + 2 ^ 64 * l
    → (p + 2 ^ 63 + (2 ^ 64 - n % 2 ^ 64)) % 2 ^ 64
      ≡ (p' + 2 ^ 63 + (2 ^ 64 - n' % 2 ^ 64)) % 2 ^ 64
residue_congr p n p' n' k l h = omega arith

wrap_i64_congr :
    (a b : ℤ) (k l : ℕ)
    → pos_part a + neg_part b + 2 ^ 64 * k ≡ pos_part b + neg_part a + 2 ^ 64 * l
    → wrap_i64 a ≡ wrap_i64 b
unfolding wrap_i64
wrap_i64_congr a b k l h =
    ap (λ (u : ℕ). sub_ℕ u (2 ^ 63))
      (residue_congr (pos_part a) (neg_part a) (pos_part b) (neg_part b) k l h)

-- A value and its wrapped value differ by a multiple of 2^64.
wrap_i64_shift :
    (a : ℤ)
    → (k : ℕ) × (l : ℕ) × (pos_part (wrap_i64 a) + neg_part a + 2 ^ 64 * k
        ≡ pos_part a + neg_part (wrap_i64 a) + 2 ^ 64 * l)
unfolding wrap_i64
wrap_i64_shift a =
    let u = pos_part a + 2 ^ 63 + (2 ^ 64 - neg_part a % 2 ^ 64) in
    (u / 2 ^ 64, neg_part a / 2 ^ 64 + 1, ground arith)

-- Wrapping early or late is the same.
pub wrap_i64-add : (a b : ℤ) → wrap_i64 (wrap_i64 a +ℤ b) ≡ wrap_i64 (a +ℤ b)
wrap_i64-add a b = let (k, l, e) = wrap_i64_shift a in wrap_i64_congr _ _ k l (omega (int_laws, e))

pub wrap_i64-sub : (a b : ℤ) → wrap_i64 (wrap_i64 a -ℤ b) ≡ wrap_i64 (a -ℤ b)
wrap_i64-sub a b = let (k, l, e) = wrap_i64_shift a in wrap_i64_congr _ _ k l (omega (int_laws, e))
