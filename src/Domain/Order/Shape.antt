-- ===== src/Domain/Order/Shape.antt =====
-- The shape of an order, stated apart from the code that checks it, and the operations that keep it.
use loss_function.Prelude.{true, false, ◌≡◌, refl, ◌↔◌, Option, none, some, ok, arith}
use loss_function.Prelude.Int.{ℤ, pos, ◌≤ℤ◌, ◌<ℤ◌}
use loss_function.Prelude.Text.{Text}
use loss_function.Decimal.{Decimal, lt}
use loss_function.Types.{OrderSide, OrderType, market, limit, Symbol}
use loss_function.Domain.{OrderStatus, pending, cancelled}
use loss_function.Domain.Order.{
  RestoredOrder, Order, terminal, check_price, validate_shape, new, restored, cancel, with_status,
}

module _ {P : Type 0} ⦃d : Decimal P⦄ where
  -- A limit order carries a price above zero, a market order none.
  abbrev pub IsPriced : OrderType → Option P → Type 0
  IsPriced market price = price ≡ none
  IsPriced limit price = (p : P) × (price ≡ some p) × (lt d.zero p ≡ true)

  pub record IsShaped (o : Order P) : Type 0 where
    pub positive : pos 0 <ℤ o.quantity
    pub priced : IsPriced o.order_type o.limit_price
    pub not_negative : pos 0 ≤ℤ o.filled_quantity
    pub not_overfilled : o.filled_quantity ≤ℤ o.quantity

  check_price-IsPriced : (t : OrderType) (p : Option P) → check_price t p ≡ ok tt → IsPriced t p
  unfolding check_price
  check_price-IsPriced market none h = refl
  check_price-IsPriced market (some p) h = cc
  check_price-IsPriced limit none h = cc
  check_price-IsPriced limit (some p) h = (p, refl, ground arith)

  IsPriced-check_price : (t : OrderType) (p : Option P) → IsPriced t p → check_price t p ≡ ok tt
  unfolding check_price
  IsPriced-check_price market none h = refl
  IsPriced-check_price market (some p) h = cc
  IsPriced-check_price limit none h = cc (h.1)
  IsPriced-check_price limit (some p) h = ground (arith, h.1, h.2)

  shape-IsShaped : (o : Order P) → validate_shape o ≡ ok tt → IsShaped o
  unfolding validate_shape
  shape-IsShaped o h = record {
    positive = ground arith;
    priced = check_price-IsPriced _ _ (ground arith);
    not_negative = ground arith;
    not_overfilled = ground arith;
  }

  IsShaped-shape : (o : Order P) → IsShaped o → validate_shape o ≡ ok tt
  unfolding validate_shape
  IsShaped-shape o h = ground (arith, IsPriced-check_price o.order_type o.limit_price h.priced)

  -- `validate_shape` accepts exactly the orders whose quantity is positive, whose price fits the
  -- type and whose filled part lies in [0, quantity].
  pub validate_shape_exact : (o : Order P) → (validate_shape o ≡ ok tt) ↔ IsShaped o
  validate_shape_exact o = (shape-IsShaped o, IsShaped-shape o)

  -- A result of `with_status` is the order with the new status and fill, and it is well shaped.
  pub with_status-IsShaped :
      (o : Order P) (s : OrderStatus) (q : ℤ) {o' : Order P}
      → with_status o s q ≡ ok o'
      → (o' ≡ record o { status = s; filled_quantity = q }) × IsShaped o'
  unfolding with_status
  with_status-IsShaped o s q {o'} h =
      let e : o' ≡ record o { status = s; filled_quantity = q } = ground arith in
      (e, rw e (shape-IsShaped _ (ground arith)))

  -- A new order is pending, has nothing filled, holds what it was given, and is well shaped.
  pub new-IsShaped :
      (id : Text) (s : Symbol) (side : OrderSide) (t : OrderType) (q : ℤ) (p : Option P)
      {o : Order P}
      → new id s side t q p ≡ ok o
      → (o.status ≡ pending)
        × (o.filled_quantity ≡ pos 0)
        × (o.client_order_id ≡ id)
        × (o.quantity ≡ q)
        × (o.limit_price ≡ p)
        × IsShaped o
  unfolding new
  new-IsShaped id s side t q p {o} h =
      let fresh : Order P = record {
        client_order_id = id;
        symbol = s;
        side = side;
        order_type = t;
        quantity = q;
        limit_price = p;
        status = pending;
        filled_quantity = pos 0;
      } in
      let e : o ≡ fresh = ground arith in
      rw e (refl, refl, refl, refl, refl, shape-IsShaped _ (ground arith))

  abbrev at_status : RestoredOrder P → Order P
  at_status r = record {
    client_order_id = r.client_order_id;
    symbol = r.symbol;
    side = r.side;
    order_type = r.order_type;
    quantity = r.quantity;
    limit_price = r.limit_price;
    status = r.status;
    filled_quantity = r.filled_quantity;
  }

  -- An order that is restored successfully has the status, the fill and the quantity of the record
  -- that it is restored from, and is well shaped.
  pub restored-IsShaped :
      (r : RestoredOrder P) {o : Order P}
      → restored r ≡ ok o
      → (o.status ≡ r.status)
        × (o.filled_quantity ≡ r.filled_quantity)
        × (o.quantity ≡ r.quantity)
        × IsShaped o
  unfolding restored
  restored-IsShaped r {o} h =
      let e : o ≡ at_status r = ground arith in
      rw e (refl, refl, refl, shape-IsShaped _ (ground arith))

  -- A cancel that succeeds on a well shaped order was made on one that is not terminal; it changes
  -- the status alone, and the result is well shaped.
  pub cancel-IsShaped :
      (o : Order P) {o' : Order P}
      → IsShaped o
      → cancel o ≡ ok o'
      → (terminal o.status ≡ false) × (o' ≡ record o { status = cancelled }) × IsShaped o'
  unfolding cancel
  cancel-IsShaped o {o'} v h =
      let e : o' ≡ record o { status = cancelled } = ground arith in
      (
        ground arith,
        e,
        rw e (record {
          positive = v.positive;
          priced = v.priced;
          not_negative = v.not_negative;
          not_overfilled = v.not_overfilled;
        }),
      )
