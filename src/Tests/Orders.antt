-- ===== src/Tests/Orders.antt =====
-- Orders and the portfolio at concrete inputs.
use loss_function.Prelude.{ok, err, ◌≡◌, refl, ◌↔◌, inl, none, some, arith}
use loss_function.Prelude.Int.{ℤ, pos}
use loss_function.Types.{buy, limit}
use loss_function.Domain.{pending, partially_filled, cancelled, non_positive_quantity}
use loss_function.Domain.Order.{Order, RestoredOrder, amendable, check_price, validate_shape, amend}
use loss_function.Domain.Order.Shape.{validate_shape_exact, IsShaped}
use loss_function.Domain.Order.Amend.{amend-IsShaped, amend_to_zero}
use loss_function.Tests.Samples.{whole, samsung, id_a}

-- a limit order for ten shares at 500
abbrev pub ten : Order ℤ
ten = record {
  client_order_id = id_a;
  symbol = samsung;
  side = buy;
  order_type = limit;
  quantity = pos 10;
  limit_price = some (pos 500);
  status = pending;
  filled_quantity = pos 0;
}

ten-IsShaped : IsShaped ten
ten-IsShaped = record {
  positive = ground arith;
  priced = (pos 500, refl, refl);
  not_negative = ground arith;
  not_overfilled = ground arith;
}

validate_shape_exact_example : (validate_shape ten ≡ ok tt) ↔ IsShaped ten
validate_shape_exact_example = validate_shape_exact ten

abbrev gone : Order ℤ
gone = record ten { status = cancelled }

abbrev part_done : RestoredOrder ℤ
part_done = record {
  client_order_id = id_a;
  symbol = samsung;
  side = buy;
  order_type = limit;
  quantity = pos 10;
  limit_price = some (pos 500);
  status = partially_filled;
  filled_quantity = pos 4;
}

abbrev back : Order ℤ
back = record ten { status = partially_filled; filled_quantity = pos 4 }

abbrev six : Order ℤ
six = record ten { quantity = pos 6; limit_price = some (pos 480) }

amend-IsShaped_example : IsShaped six
unfolding amend amendable validate_shape check_price
amend-IsShaped_example =
    amend-IsShaped ten (some (pos 6)) (some (pos 480)) {o' = six} ten-IsShaped refl (inl refl)

amend_to_zero_example :
    (o : Order ℤ) × (amend ten (some (pos 0)) none ≡ ok o)
    × (validate_shape o ≡ err (non_positive_quantity (pos 0)))
unfolding amendable
amend_to_zero_example = amend_to_zero ten refl refl
