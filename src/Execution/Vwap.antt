-- ===== src/Execution/Vwap.antt =====
-- rust/lossfunction/src/execution/vwap.rs: slices of a parent order, and the average price by volume.
pub mod Schedule
use loss_function.Prelude.{
  ℕ, suc, ◌/◌, ◌%◌, Bool, ◌&&◌, Option, none, some, List, [], ◌∷◌, map, foldl, Result, ok, err,
  ◌==◌, if◌then◌else◌,
}
use loss_function.Prelude.Int.{ℤ, pos, negsuc, pos_part, neg_part, sub_ℕ, leb_ℤ, min_ℤ, add_i64}
use loss_function.Decimal.{Decimal, sum}

pub record VwapSchedule : Type 0 where
  pub total_quantity : ℤ
  pub slices : ℤ
  pub filled : ℤ

pub data VwapError : Type 0 where
  indivisible : ℤ → ℤ → VwapError
  non_positive_slices : ℤ → VwapError

-- `a / b` and `a % b == 0` on `i64` for a positive `b`: the quotient is cut towards zero.
unfoldable pub quotient : ℤ → ℤ → ℤ
quotient a b = sub_ℕ (pos_part a / pos_part b) (neg_part a / pos_part b)

unfoldable pub divides : ℤ → ℤ → Bool
divides a b = pos_part a % pos_part b == 0 && neg_part a % pos_part b == 0

-- `VwapSchedule::new`
unfoldable pub new : ℤ → ℤ → Result VwapError VwapSchedule
new total_quantity slices =
    if leb_ℤ slices (pos 0)
    then err (non_positive_slices slices)
    else if divides total_quantity slices
    then ok (record { total_quantity = total_quantity; slices = slices; filled = pos 0 })
    else err (indivisible total_quantity slices)

-- `complete`
unfoldable pub complete : VwapSchedule → Bool
complete s = leb_ℤ s.total_quantity s.filled

-- `next_slice`
unfoldable pub next_slice : VwapSchedule → ℤ
next_slice s = if leb_ℤ s.total_quantity s.filled then pos 0 else quotient s.total_quantity s.slices

-- `record_fill`
unfoldable pub record_fill : VwapSchedule → ℤ → VwapSchedule
record_fill s quantity = record s { filled = min_ℤ (add_i64 s.filled quantity) s.total_quantity }

module _ {P : Type 0} ⦃d : Decimal P⦄ where
  -- `progress`
  unfoldable pub progress : VwapSchedule → P
  progress s = d.div (d.of_int s.filled) (d.of_int s.total_quantity)

  -- the sum of the volumes, on an `i64`
  unfoldable pub total_volume : List (P × ℤ) → ℤ
  total_volume bars = foldl (λ acc bar. add_i64 acc bar.1) (pos 0) bars

  -- `vwap`
  unfoldable pub vwap : List (P × ℤ) → Option P
  vwap bars =
      if leb_ℤ (total_volume bars) (pos 0)
      then none
      else some (
          d.div (sum (map (λ bar. d.mul bar.0 (d.of_int bar.1)) bars))
            (d.of_int (total_volume bars)))
