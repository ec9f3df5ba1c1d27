-- ===== src/Config/Numbers.antt =====
-- A number that is written as Rust prints it is read back by the settings' reader.
use loss_function.Prelude.{
  ℕ, zero, suc, ◌+◌, ◌-◌, ◌*◌, ◌/◌, ◌%◌, ◌^◌, ◌≤◌, ◌<◌, ◌≡◌, refl, ◌∙◌, ap, inl, inr, Bool-cases,
  Option, none, some, [], ◌∷◌, ◌++◌, ok, arith, ltb,
}
use loss_function.Prelude.Int.{ℤ, pos, negsuc, InI64}
use loss_function.Prelude.Text.{Text, bytes, show_nat_from, show_nat, show_int}
use loss_function.Prelude.Scan.{
  digits_from, digits, negative, positive, without_plus, in_u64, parse_i64, parse_u64,
}
use loss_function.Config.{Env, present}
use loss_function.Config.Reading.{read_optional, read_number}

-- one more digit
step : Option ℕ → ℕ → Option ℕ
step none d = none
step (some n) d = some (n * 10 + d)

digits-snoc :
    (acc d : ℕ) (t : Text)
    → d < 10
    → digits_from acc (t ++ (48 + d) ∷ []) ≡ step (digits_from acc t) d
unfolding digits_from step
digits-snoc acc d [] h = ground arith
digits-snoc acc d (b ∷ t) h = ground (arith, digits-snoc (acc * 10 + (b - 48)) d t h)

-- enough fuel, and the digits of a number read as the number
read_digits : (f n : ℕ) → n < f → digits_from 0 (show_nat_from f n) ≡ some n
unfolding show_nat_from digits_from step
read_digits zero n h = absurd (omega arith)
read_digits (suc f) n h = elim (Bool-cases (ltb n 10)) [
  | inl small ↦ rw small (ground arith)
  | inr large ↦ rw large (
      rw (digits-snoc 0 (n % 10) (show_nat_from f (n / 10)) (omega arith))
        (rw (read_digits f (n / 10) (ground arith)) (ground arith)))
]

-- the digits begin with a digit
record Begins (t : Text) : Type 0 where
  head : ℕ
  rest : Text
  is : t ≡ head ∷ rest
  low : 48 ≤ head
  high : head ≤ 57

begins : (f n : ℕ) → n < f → Begins (show_nat_from f n)
unfolding show_nat_from
begins zero n h = absurd (omega arith)
begins (suc f) n h = elim (Bool-cases (ltb n 10)) [
  | inl small ↦
      rw small
        (record { head = 48 + n; rest = []; is = refl; low = omega arith; high = ground arith })
  | inr large ↦
      let b = begins f (n / 10) (ground arith) in
      rw large (record {
        head = b.head;
        rest = b.rest ++ (48 + n % 10) ∷ [];
        is = ap (λ t. t ++ (48 + n % 10) ∷ []) b.is;
        low = b.low;
        high = b.high;
      })
]

-- what the readers do with a text that begins with a digit
digits_begun : (t : Text) → Begins t → digits t ≡ digits_from 0 t
unfolding digits
digits_begun t b = rw b.is

unsigned_u64 : (t : Text) → Begins t → parse_u64 t ≡ in_u64 (digits t)
unfolding parse_u64 without_plus
unsigned_u64 t b = ground (arith, b.is, b.high, b.low)

unsigned_i64 : (t : Text) → Begins t → parse_i64 t ≡ positive (digits t)
unfolding parse_i64
unsigned_i64 t b = ground (arith, b.is, b.high, b.low)

Begins-shown : (n : ℕ) → Begins (show_nat n)
unfolding show_nat
Begins-shown n = begins (suc n) n (omega arith)

digits-show_nat : (n : ℕ) → digits (show_nat n) ≡ some n
unfolding show_nat
digits-show_nat n =
    digits_begun (show_nat_from (suc n) n) (begins (suc n) n (omega arith))
    ∙ read_digits (suc n) n (omega arith)

parse_u64-show_nat : (n : ℕ) → n < 2 ^ 64 → parse_u64 (show_nat n) ≡ some n
unfolding in_u64
parse_u64-show_nat n h =
    unsigned_u64 (show_nat n) (Begins-shown n) ∙ rw (digits-show_nat n) (ground arith)

show_pos : (n : ℕ) → show_int (pos n) ≡ show_nat n
unfolding show_int show_nat
show_pos n = refl

show_negative : (n : ℕ) → show_int (negsuc n) ≡ 45 ∷ show_nat (suc n)
unfolding show_int show_nat bytes
show_negative n = refl

parse_minus : (t : Text) → parse_i64 (45 ∷ t) ≡ negative (digits t)
unfolding parse_i64
parse_minus t = refl

parse_i64-show_int : (a : ℤ) → InI64 a → parse_i64 (show_int a) ≡ some a
unfolding negative positive
parse_i64-show_int (pos n) h =
    ap parse_i64 (show_pos n)
    ∙ (unsigned_i64 (show_nat n) (Begins-shown n) ∙ rw (digits-show_nat n) (ground (arith, h.high)))
parse_i64-show_int (negsuc n) h =
    ap parse_i64 (show_negative n)
    ∙ (parse_minus (show_nat (suc n)) ∙ rw (digits-show_nat (suc n)) (ground (arith, h.low)))

read_number_set :
    {A : Type 0} (number : Text → Option A) (env : Env) (key t : Text) (default a : A)
    → env key ≡ present t
    → number t ≡ some a
    → read_number number env key default ≡ ok a
unfolding read_number read_optional
read_number_set number env key t default a h k = ground (arith, h, k)

-- A variable that is set to the decimal text of an i64, as Rust prints it, is read as that number,
-- whatever the default.
pub read_i64_shown :
    (env : Env) (key : Text) (a default : ℤ)
    → InI64 a
    → env key ≡ present (show_int a)
    → read_number parse_i64 env key default ≡ ok a
read_i64_shown env key a default i h =
    read_number_set parse_i64 env key (show_int a) default a h (parse_i64-show_int a i)

-- A variable that is set to the decimal text of a u64 is read as that number, whatever the default.
pub read_u64_shown :
    (env : Env) (key : Text) (n default : ℕ)
    → n < 2 ^ 64
    → env key ≡ present (show_nat n)
    → read_number parse_u64 env key default ≡ ok n
read_u64_shown env key n default i h =
    read_number_set parse_u64 env key (show_nat n) default n h (parse_u64-show_nat n i)
