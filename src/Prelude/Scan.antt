-- ===== src/Prelude/Scan.antt =====
-- What the source does to texts of the environment: Rust's `trim`, `split`, `to_ascii_lowercase` and
-- the `FromStr` of integers, on the bytes of a `String`.
use Prim.Native.Nat.{ℕ, zero, suc, ◌+◌, ◌-◌, ◌*◌, ◌^◌}
use mathlib.Core.Bool.{Bool, ◌&&◌, ◌||◌}
use mathlib.Core.Option.{Option, none, some}
use mathlib.Core.List.{List, [], ◌∷◌, ◌++◌, map, reverse}
use loss_function.Prelude.Tests.{leb, ltb, ◌==◌, if◌then◌else◌}
use loss_function.Prelude.Int.{ℤ, pos, negsuc}
use loss_function.Prelude.Text.{Text}
use loss_function.Prelude.Lists.{length}

-- `to_ascii_lowercase`
unfoldable pub to_ascii_lowercase : Text → Text
to_ascii_lowercase t = map (λ b. if leb 65 b && leb b 90 then b + 32 else b) t

-- `split(separator)`, for a separator of one byte: there is always a first piece
unfoldable pub split_from : ℕ → Text → Text → List Text
split_from separator piece [] = piece ∷ []
split_from separator piece (b ∷ t) =
    let next = split_from separator [] t in
    let more = split_from separator (piece ++ b ∷ []) t in
    if b == separator then piece ∷ next else more

unfoldable pub split : ℕ → Text → List Text
unfolding split_from
split separator t = split_from separator [] t

-- White space as Unicode has it, in UTF-8: of one, two or three bytes.
unfoldable pub is_white1 : ℕ → Bool
is_white1 a = leb 9 a && leb a 13 || a == 32

unfoldable pub is_white2 : ℕ → ℕ → Bool
is_white2 a b = a == 194 && (b == 133 || b == 160)

unfoldable pub is_white3 : ℕ → ℕ → ℕ → Bool
is_white3 a b c =
    a == 225 && (b == 154 && c == 128)
    || (a == 226
          && (b == 128 && (leb 128 c && leb c 138 || (c == 168 || (c == 169 || c == 175)))
              || b == 129 && c == 159)
        || a == 227 && (b == 128 && c == 128))

-- How many bytes of white space a text begins with, as one character; `is2` and `is3` read the
-- bytes in the order of the text.
unfoldable pub white_width : (ℕ → ℕ → Bool) → (ℕ → ℕ → ℕ → Bool) → Text → ℕ
unfolding is_white1
white_width is2 is3 [] = 0
white_width is2 is3 (a ∷ []) = if is_white1 a then 1 else 0
white_width is2 is3 (a ∷ b ∷ []) = if is_white1 a then 1 else if is2 a b then 2 else 0
white_width is2 is3 (a ∷ b ∷ c ∷ t) =
    if is_white1 a then 1 else if is2 a b then 2 else if is3 a b c then 3 else 0

-- Characters of white space are dropped while there is one; each drop takes at least a byte, so the
-- text's length is enough fuel.
unfoldable pub drop_white : ℕ → (ℕ → ℕ → Bool) → (ℕ → ℕ → ℕ → Bool) → Text → Text
unfolding white_width
drop_white zero is2 is3 t = t
drop_white (suc fuel) is2 is3 t = elim (white_width is2 is3 t) [
  | zero ↦ t
  | suc n ↦ drop_white fuel is2 is3 (drop_bytes (suc n) t)
]
  where
    drop_bytes : ℕ → Text → Text
    drop_bytes zero t = t
    drop_bytes (suc n) [] = []
    drop_bytes (suc n) (b ∷ t) = drop_bytes n t

-- `trim`
unfoldable pub trim : Text → Text
unfolding drop_white is_white2 is_white3
trim t =
    let front = drop_white (length t) is_white2 is_white3 t in
    reverse
      (drop_white (length front) (λ b a. is_white2 a b) (λ c b a. is_white3 a b c) (reverse front))

-- the value of decimal digits, if there is at least one and nothing else; no bound
unfoldable pub digits_from : ℕ → Text → Option ℕ
digits_from n [] = some n
digits_from n (b ∷ t) =
    let rest = digits_from (n * 10 + (b - 48)) t in if leb 48 b && leb b 57 then rest else none

unfoldable pub digits : Text → Option ℕ
unfolding digits_from
digits [] = none
digits (b ∷ t) = digits_from 0 (b ∷ t)

-- the text after an optional plus sign
unfoldable pub without_plus : Text → Text
without_plus [] = []
without_plus (b ∷ t) = if b == 43 then t else b ∷ t

unfoldable pub in_u64 : Option ℕ → Option ℕ
in_u64 none = none
in_u64 (some n) = if ltb n (2 ^ 64) then some n else none

-- `parse::<u64>()`
unfoldable pub parse_u64 : Text → Option ℕ
unfolding digits without_plus in_u64
parse_u64 t = in_u64 (digits (without_plus t))

-- a negative number: at most 2 ^ 63
unfoldable pub negative : Option ℕ → Option ℤ
negative none = none
negative (some zero) = some (pos 0)
negative (some (suc n)) = if ltb n (2 ^ 63) then some (negsuc n) else none

unfoldable pub positive : Option ℕ → Option ℤ
positive none = none
positive (some n) = if ltb n (2 ^ 63) then some (pos n) else none

-- `parse::<i64>()`: an optional sign
unfoldable pub parse_i64 : Text → Option ℤ
unfolding digits negative positive
parse_i64 [] = none
parse_i64 (b ∷ t) =
    if b == 45
    then negative (digits t)
    else if b == 43
    then positive (digits t)
    else positive (digits (b ∷ t))
