-- ===== src/Prelude/Text.antt =====
-- Rust's `String` as its bytes, and the decimal `Display` of integers.
use Prim.Native.Nat.{ℕ, zero, suc, ◌+◌, ◌/◌, ◌%◌}
use Prim.Native.Char.{code}
use Prim.Native.String.{String}
use mathlib.Core.Path.{◌≡◌, refl}
use mathlib.Core.Logic.{◌↔◌}
use mathlib.Core.Bool.{Bool, true, false, ◌&&◌}
use mathlib.Core.List.{List, [], ◌∷◌, ◌++◌}
use native.Mathlib.Omega.{arith}
use loss_function.Prelude.Tests.{ltb, ◌==◌, if◌then◌else◌}
use loss_function.Prelude.Int.{ℤ, pos, negsuc}
use loss_function.Prelude.Keys.{Eq, Less}

abbrev pub Text : Type 0
Text = List ℕ

-- The bytes of an ASCII literal.
unfoldable pub bytes : String → Text
bytes String.[] = []
bytes (String.◌∷◌ c s) = code c ∷ bytes s

abbrev pub text_beq : Text → Text → Bool
text_beq [] [] = true
text_beq [] (b ∷ t) = false
text_beq (a ∷ s) [] = false
text_beq (a ∷ s) (b ∷ t) = a == b && text_beq s t

-- Lexicographic, as `Ord` for `String`.
abbrev pub text_less : Text → Text → Bool
text_less s [] = false
text_less [] (b ∷ t) = true
text_less (a ∷ s) (b ∷ t) = if ltb a b then true else a == b && text_less s t

pub text_beq_to : (s t : Text) → text_beq s t ≡ true → s ≡ t
text_beq_to [] [] h = refl
text_beq_to [] (b ∷ t) h = cc
text_beq_to (a ∷ s) [] h = cc
text_beq_to (a ∷ s) (b ∷ t) h = ground (arith, text_beq_to s t)

pub text_beq_refl : (s : Text) → text_beq s s ≡ true
text_beq_refl [] = refl
text_beq_refl (a ∷ s) = ground (arith, text_beq_refl s)

pub text_beq_iff : (s t : Text) → (text_beq s t ≡ true) ↔ (s ≡ t)
text_beq_iff s t = (text_beq_to s t, λ p. rw p (text_beq_refl t))

instance abbrev pub text_eq : Eq Text
text_eq = record { beq = text_beq; beq_iff = text_beq_iff }

instance abbrev pub text_ord : Less Text
text_ord = record { less = text_less }

-- The decimal digits of a number, by fuel; `show_nat` gives enough.
unfoldable pub show_nat_from : ℕ → ℕ → Text
show_nat_from zero n = []
show_nat_from (suc f) n =
    let rest = show_nat_from f (n / 10) in
    if ltb n 10 then (48 + n) ∷ [] else rest ++ (48 + n % 10) ∷ []

unfoldable pub show_nat : ℕ → Text
unfolding show_nat_from
show_nat n = show_nat_from (suc n) n

unfoldable pub show_int : ℤ → Text
unfolding show_nat bytes
show_int (pos n) = show_nat n
show_int (negsuc n) = bytes "-" ++ show_nat (suc n)

-- `{:04}`: at least four digits
unfoldable pub padded : ℕ → Text
padded n =
    let digits = show_nat n in
    if ltb n 10
    then 48 ∷ 48 ∷ 48 ∷ digits
    else if ltb n 100
    then 48 ∷ 48 ∷ digits
    else if ltb n 1000
    then 48 ∷ digits
    else digits
