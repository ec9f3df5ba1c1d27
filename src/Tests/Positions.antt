-- ===== src/Tests/Positions.antt =====
-- The portfolio at concrete fills.
use loss_function.Prelude.{◌≡◌, refl, [], ◌∷◌, arith}
use loss_function.Prelude.Int.{◌+ℤ◌, ◌-ℤ◌, ◌*ℤ◌, ◌≤ℤ◌, InI64, wrap_i64, add_i64, sub_i64, ℤ, pos}
use loss_function.Prelude.Maps.{lookup, insert_sorted}
use loss_function.Types.{buy, sell, symbol_eq}
use loss_function.Domain.Portfolio.{
  Fill, PositionState, Portfolio, empty, position, put, bought, sold, fill_entry, apply_fill,
  apply_fills,
}
use loss_function.Domain.Portfolio.Positions.{shares}
use loss_function.Domain.Portfolio.Netting.{net, shares-apply_fills, never_short}
use loss_function.Tests.Samples.{whole, samsung, id_a}

abbrev ten_at_500 : Fill ℤ
ten_at_500 = record {
  client_order_id = id_a;
  symbol = samsung;
  side = buy;
  quantity = pos 10;
  price = pos 500;
}

abbrev four_at_600 : Fill ℤ
four_at_600 = record ten_at_500 { side = sell; quantity = pos 4; price = pos 600 }

abbrev fifty : Fill ℤ
fifty = record ten_at_500 { side = sell; quantity = pos 50 }

abbrev held_ten : PositionState ℤ
held_ten = record {
  symbol = samsung;
  quantity = pos 10;
  average_price = pos 500;
  realized_pnl = pos 0;
}

abbrev held_six : PositionState ℤ
held_six = record {
  symbol = samsung;
  quantity = pos 6;
  average_price = pos 500;
  realized_pnl = pos 400;
}

abbrev with_ten : Portfolio ℤ
with_ten = record { entries = (samsung, held_ten) ∷ [] }

abbrev with_six : Portfolio ℤ
with_six = record { entries = (samsung, held_six) ∷ [] }

ten_in_range : InI64 (pos 10)
ten_in_range = record { low = ground arith; high = ground arith }

four_in_range : InI64 (pos 4)
four_in_range = record { low = ground arith; high = ground arith }

shares-apply_fills_example : pos 6 ≡ wrap_i64 (net samsung (pos 0) (ten_at_500 ∷ four_at_600 ∷ []))
unfolding apply_fills apply_fill fill_entry bought sold put position lookup insert_sorted sub_i64
    add_i64 wrap_i64 ◌-ℤ◌ ◌*ℤ◌ ◌+ℤ◌
shares-apply_fills_example =
    shares-apply_fills empty (ten_at_500 ∷ four_at_600 ∷ []) samsung {q = with_six} (ground arith)
      (ten_in_range, (four_in_range, tt)) refl

never_short_example : pos 0 ≤ℤ shares (position with_six samsung)
unfolding apply_fills apply_fill fill_entry bought sold put position lookup insert_sorted sub_i64
    add_i64 wrap_i64 ◌-ℤ◌ ◌*ℤ◌ ◌+ℤ◌
never_short_example =
    never_short (ten_at_500 ∷ four_at_600 ∷ []) empty samsung {q = with_six}
      ((ten_in_range, ground arith), ((four_in_range, ground arith), tt)) (ground arith)
      (ground arith) refl
