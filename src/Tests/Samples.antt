-- ===== src/Tests/Samples.antt =====
-- Whole numbers as prices, instants and dates, and the values that the tests share.
use loss_function.Prelude.{true, ◌≡◌, ◌⊎◌, [], ◌∷◌, arith, ap, ◌≢◌, ◌/◌}
use loss_function.Prelude.Int.{ℤ, pos, ◌+ℤ◌, ◌-ℤ◌, ◌*ℤ◌, leb_ℤ}
use loss_function.Prelude.Text.{Text, text_beq}
use loss_function.Decimal.{Decimal}
use loss_function.Types.{Symbol}

pub leb_refl : (a : ℤ) → leb_ℤ a a ≡ true
leb_refl a = ground arith

pub leb_trans : (a b c : ℤ) → leb_ℤ a b ≡ true → leb_ℤ b c ≡ true → leb_ℤ a c ≡ true
leb_trans a b c h k = ground arith

pub leb_total : (a b : ℤ) → (leb_ℤ a b ≡ true) ⊎ (leb_ℤ b a ≡ true)
leb_total a b = ground arith

-- Prices are whole numbers; division is only ever by a positive one here, and is rounded down.
abbrev pub div_ℤ : ℤ → ℤ → ℤ
div_ℤ (pos a) (pos b) = pos (a / b)
div_ℤ a b = a

instance abbrev pub whole : Decimal ℤ
whole = record {
  zero = pos 0;
  one = pos 1;
  of_int = λ n. n;
  add = ◌+ℤ◌;
  sub = ◌-ℤ◌;
  mul = ◌*ℤ◌;
  div = div_ℤ;
  neg = λ a. pos 0 -ℤ a;
  le = leb_ℤ;
  le_refl = leb_refl;
  le_trans = leb_trans;
  le_total = leb_total;
}

abbrev pub samsung : Symbol
samsung = record { text = 48 ∷ 48 ∷ 53 ∷ 57 ∷ 51 ∷ 48 ∷ [] }

abbrev pub hynix : Symbol
hynix = record { text = 48 ∷ 48 ∷ 48 ∷ 54 ∷ 54 ∷ 48 ∷ [] }

abbrev pub id_a : Text
id_a = 97 ∷ []

abbrev pub id_b : Text
id_b = 98 ∷ []

pub symbols_differ : hynix ≢ samsung
symbols_differ h = cc (ap (λ (s : Symbol). text_beq hynix.text s.text) h)

pub ids_differ : id_b ≢ id_a
ids_differ h = cc (ap (λ t. text_beq id_b t) h)
