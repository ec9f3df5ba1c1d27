-- ===== src/Domain/Order/Amend.antt =====
-- What an amendment does to the shape of an order.
use loss_function.Prelude.{
  true, ◌≡◌, refl, ◌⊎◌, Option, none, some, ok, err, unwrap_or, is_some, arith,
}
use loss_function.Prelude.Int.{ℤ, pos, ◌≤ℤ◌, ◌<ℤ◌}
use loss_function.Decimal.{Decimal}
use loss_function.Domain.{non_positive_quantity}
use loss_function.Domain.Order.{Order, amendable, validate_shape, amend}
use loss_function.Domain.Order.Shape.{IsShaped, validate_shape_exact}

module _ {P : Type 0} ⦃d : Decimal P⦄ where
  -- An amendment that succeeds was made on an amendable order, never goes below what is filled, and
  -- touches no field but the quantity and the price.
  pub amend_terms :
      (o : Order P) (q : Option ℤ) (p : Option P) {o' : Order P}
      → amend o q p ≡ ok o'
      → (amendable o.status ≡ true)
        × (o.filled_quantity ≤ℤ o'.quantity)
        × (o'.quantity ≡ unwrap_or q o.quantity)
        × (o' ≡ record o { quantity = o'.quantity; limit_price = o'.limit_price })
  unfolding amend
  amend_terms o q p h = (ground arith, ground arith, ground arith, ground arith)

  -- Amending a well shaped order gives a well shaped one, if a price is given or the new quantity
  -- is positive.
  pub amend-IsShaped :
      (o : Order P) (q : Option ℤ) (p : Option P) {o' : Order P}
      → IsShaped o
      → amend o q p ≡ ok o'
      → (is_some p ≡ true) ⊎ (pos 0 <ℤ unwrap_or q o.quantity)
      → IsShaped o'
  unfolding amend
  amend-IsShaped o q (some price) {o'} v h g = (validate_shape_exact o').0 (ground arith)
  amend-IsShaped o q none {o'} v h g =
      let e : o' ≡ record o { quantity = unwrap_or q o.quantity } = ground arith in
      rw e (record {
        positive = ground arith;
        priced = v.priced;
        not_negative = v.not_negative;
        not_overfilled = ground arith;
      })

  -- An amendable order of which nothing is filled can be amended to quantity 0 if no price is
  -- given, and the result fails the shape check.
  pub amend_to_zero :
      (o : Order P)
      → amendable o.status ≡ true
      → o.filled_quantity ≡ pos 0
      → (o' : Order P) × (amend o (some (pos 0)) none ≡ ok o')
        × (validate_shape o' ≡ err (non_positive_quantity (pos 0)))
  unfolding amend validate_shape
  amend_to_zero o a f = (record o { quantity = pos 0 }, ground arith, refl)
