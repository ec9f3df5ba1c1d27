-- ===== src/MarketData/Aggregator/Bars.antt =====
-- The shape of a bar, and what one tick does.
use loss_function.Prelude.{true, ◌≡◌, arith}
use loss_function.Decimal.{Decimal}
use loss_function.Types.{symbol_eq}
use loss_function.MarketData.Aggregator.{PartialBar, first_tick, next_tick}

-- Open and close lie between low and high.
pub record IsBar {P D : Type 0} ⦃d : Decimal P⦄ (p : PartialBar P D) : Type 0 where
  pub low_open : d.le p.low p.open_price ≡ true
  pub open_high : d.le p.open_price p.high ≡ true
  pub low_close : d.le p.low p.close ≡ true
  pub close_high : d.le p.close p.high ≡ true

module _ {P D : Type 0} ⦃d : Decimal P⦄ where
  pub first_tick-IsBar : (date : D) (price : P) → IsBar (first_tick date price)
  unfolding first_tick
  first_tick-IsBar date price = record {
    low_open = d.le_refl price;
    open_high = d.le_refl price;
    low_close = d.le_refl price;
    close_high = d.le_refl price;
  }

  pub next_tick-IsBar : (p : PartialBar P D) (price : P) → IsBar p → IsBar (next_tick p price)
  unfolding next_tick
  next_tick-IsBar p price h = record {
    low_open =
        ground (arith, h.low_open, d.le_total price p.low, d.le_trans price p.low p.open_price);
    open_high =
        ground (arith, h.open_high, d.le_total p.high price, d.le_trans p.open_price p.high price);
    low_close = ground (arith, d.le_refl price, d.le_total price p.low);
    close_high = ground (arith, d.le_refl price, d.le_total p.high price);
  }
