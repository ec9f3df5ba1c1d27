-- ===== src/Tests/Summaries.antt =====
-- The summary of a backtest at concrete fills. An instant is a number.
use loss_function.Prelude.{ltb, ℕ, ◌≡◌, refl, [], ◌∷◌, All, arith}
use loss_function.Prelude.Int.{ℤ, pos, ◌-ℤ◌, min_ℤ}
use loss_function.Types.{OrderSide, buy, sell}
use loss_function.Backtest.{FillRecord, BacktestResult}
use loss_function.Backtest.Summary.{Lots, match_lots, summarize}
use loss_function.Backtest.Summary.Lots.{shares_of, IsLot, gain_over, sale_takes}
use loss_function.Backtest.Summary.Counts.{sales, gains, positives, summary_counts}
use loss_function.Tests.Samples.{whole, samsung}

abbrev two_lots : Lots ℤ
two_lots = (pos 10, pos 480) ∷ (pos 10, pos 490) ∷ []

sale_takes_example :
    (shares_of (match_lots (pos 500) (pos 15) two_lots (pos 0)).1
      ≡ shares_of two_lots -ℤ min_ℤ (shares_of two_lots) (pos 15))
    × All IsLot (match_lots (pos 500) (pos 15) two_lots (pos 0)).1
    × ((match_lots (pos 500) (pos 15) two_lots (pos 0)).0
        ≡ gain_over (pos 500) (pos 15) two_lots (pos 0))
sale_takes_example =
    sale_takes (pos 500) (pos 0) (pos 15) two_lots
      (
        (omega arith, record { low = omega arith; high = omega arith }),
        ((omega arith, record { low = omega arith; high = omega arith }), tt),
      )
      (omega arith) (record { low = omega arith; high = omega arith })

abbrev filled_at : ℕ → OrderSide → ℕ → FillRecord ℤ ℕ
filled_at t side price = record {
  client_order_id = [];
  symbol = samsung;
  side = side;
  quantity = pos 10;
  price = pos price;
  commission = pos 0;
  tax = pos 0;
  timestamp = t;
}

-- bought, sold with a gain, and sold once more without a lot
abbrev round_trip : BacktestResult ℤ ℕ
round_trip = record {
  cash = pos 105200;
  total_commission = pos 0;
  total_tax = pos 0;
  equity = pos 105200;
  equity_curve = (1, pos 100000) ∷ (3, pos 105200) ∷ [];
  fills = filled_at 1 buy 480 ∷ filled_at 3 sell 500 ∷ filled_at 3 sell 500 ∷ [];
}

summary_counts_example :
    ((summarize ltb round_trip (pos 100000)).trades ≡ sales round_trip.fills)
    × ((summarize ltb round_trip (pos 100000)).wins ≡ positives (gains [] round_trip.fills))
summary_counts_example =
    summary_counts ltb round_trip (pos 100000) ((refl, (refl, tt)), ((refl, tt), (tt, tt)))
