-- ===== src/Domain/Order.antt =====
-- rust/lossfunction/src/domain/order.rs: the order aggregate. A method returns the new order; the
-- order that it is called on is a value and stays as it is.
pub mod Shape
pub mod Amend
use loss_function.Prelude.{
  Bool, true, false, ◌||◌, Option, none, some, Result, ok, err, ◌>>=◌, ◌>>◌, unwrap_or,
  if◌then◌else◌,
}
use loss_function.Prelude.Int.{ℤ, pos, ltb_ℤ, leb_ℤ}
use loss_function.Prelude.Text.{Text, bytes}
use loss_function.Decimal.{Decimal}
use loss_function.Types.{OrderSide, OrderType, market, limit, Symbol}
use loss_function.Domain.{
  OrderStatus, pending, submitted, partially_filled, filled, cancelled, rejected, unknown,
  amend_order, cancel_order, DomainError, non_positive_quantity, limit_needs_price,
  market_carries_price, filled_out_of_range, wrong_status, amend_below_filled,
}

unfoldable pub amendable : OrderStatus → Bool
amendable pending = true
amendable submitted = true
amendable partially_filled = true
amendable _ = false

unfoldable pub terminal : OrderStatus → Bool
terminal filled = true
terminal cancelled = true
terminal rejected = true
terminal _ = false

-- `Display for OrderStatus`
unfoldable pub status_name : OrderStatus → Text
status_name pending = bytes "pending"
status_name submitted = bytes "submitted"
status_name partially_filled = bytes "partially_filled"
status_name filled = bytes "filled"
status_name cancelled = bytes "cancelled"
status_name rejected = bytes "rejected"
status_name unknown = bytes "unknown"

pub record RestoredOrder (P : Type 0) : Type 0 where
  pub client_order_id : Text
  pub symbol : Symbol
  pub side : OrderSide
  pub order_type : OrderType
  pub quantity : ℤ
  pub limit_price : Option P
  pub status : OrderStatus
  pub filled_quantity : ℤ

pub record Order (P : Type 0) : Type 0 where
  pub client_order_id : Text
  pub symbol : Symbol
  pub side : OrderSide
  pub order_type : OrderType
  pub quantity : ℤ
  pub limit_price : Option P
  pub status : OrderStatus
  pub filled_quantity : ℤ

module _ {P : Type 0} ⦃d : Decimal P⦄ where
  -- the `match (self.order_type, self.limit_price)` of `validate_shape`
  unfoldable pub check_price : OrderType → Option P → Result DomainError (Unit {0})
  check_price limit none = err limit_needs_price
  check_price limit (some price) = if d.le price d.zero then err limit_needs_price else ok tt
  check_price market (some price) = err market_carries_price
  check_price market none = ok tt

  unfoldable pub validate_shape : Order P → Result DomainError (Unit {0})
  validate_shape o =
      if leb_ℤ o.quantity (pos 0)
      then err (non_positive_quantity o.quantity)
      else check_price o.order_type o.limit_price
        >> (if ltb_ℤ o.filled_quantity (pos 0) || ltb_ℤ o.quantity o.filled_quantity
            then err (filled_out_of_range o.filled_quantity o.quantity)
            else ok tt)

  -- `Order::new`
  unfoldable pub new :
      Text → Symbol → OrderSide → OrderType → ℤ → Option P → Result DomainError (Order P)
  new client_order_id symbol side order_type quantity limit_price =
      let order : Order P = record {
        client_order_id = client_order_id;
        symbol = symbol;
        side = side;
        order_type = order_type;
        quantity = quantity;
        limit_price = limit_price;
        status = pending;
        filled_quantity = pos 0;
      } in
      do validate_shape order; ok order

  -- `Order::restored`
  unfoldable pub restored : RestoredOrder P → Result DomainError (Order P)
  unfolding new
  restored r = do
    fresh ← new r.client_order_id r.symbol r.side r.order_type r.quantity r.limit_price
    let order = record fresh { status = r.status; filled_quantity = r.filled_quantity }
    validate_shape order
    ok order

  -- `Order::amend`: the shape is checked again only where a price is given
  unfoldable pub amend : Order P → Option ℤ → Option P → Result DomainError (Order P)
  unfolding amendable
  amend o quantity limit_price =
      let new_quantity = unwrap_or quantity o.quantity in
      let resized = record o { quantity = new_quantity } in
      if amendable o.status
      then if ltb_ℤ new_quantity o.filled_quantity
        then err (amend_below_filled new_quantity o.filled_quantity)
        else elim limit_price [
          | none ↦ ok resized
          | some price ↦
              let amended = record resized { limit_price = some price } in
              validate_shape amended >> ok amended
        ]
      else err (wrong_status amend_order o.status)

  -- `Order::cancel`
  unfoldable pub cancel : Order P → Result DomainError (Order P)
  unfolding terminal
  cancel o =
      if terminal o.status
      then err (wrong_status cancel_order o.status)
      else ok (record o { status = cancelled })

  -- `Order::with_status`
  unfoldable pub with_status : Order P → OrderStatus → ℤ → Result DomainError (Order P)
  with_status o status filled_quantity =
      let next = record o { status = status; filled_quantity = filled_quantity } in
      do validate_shape next; ok next
