-- ===== src/Domain.antt =====
-- rust/lossfunction/src/domain/mod.rs: the rule violations that the domain shares, and the blended
-- average price.
pub mod Order
pub mod Portfolio
use loss_function.Prelude.Int.{ℤ, add_i64}
use loss_function.Prelude.Text.{Text}
use loss_function.Decimal.{Decimal}

-- domain/order.rs; declared here because `DomainError` names it.
pub data OrderStatus : Type 0 where
  pending submitted partially_filled filled cancelled rejected unknown : OrderStatus

-- The `&'static str` of `WrongStatus`: the two values that the code passes.
pub data Attempt : Type 0 where
  amend_order cancel_order : Attempt

pub data DomainError : Type 0 where
  non_positive_quantity : ℤ → DomainError
  limit_needs_price : DomainError
  market_carries_price : DomainError
  filled_out_of_range : ℤ → ℤ → DomainError
  wrong_status : Attempt → OrderStatus → DomainError
  amend_below_filled : ℤ → ℤ → DomainError
  insufficient_position : Text → ℤ → ℤ → DomainError

-- Exact average price over the shares held and the shares added.
unfoldable pub blended_average : {P : Type 0} ⦃d : Decimal P⦄ → ℤ → P → ℤ → P → P
blended_average ⦃d⦄ current_qty current_avg add_qty add_price =
    let total_cost =
      d.add (d.mul current_avg (d.of_int current_qty)) (d.mul add_price (d.of_int add_qty)) in
    d.div total_cost (d.of_int (add_i64 current_qty add_qty))
