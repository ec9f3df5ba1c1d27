-- ===== src/Tests/Replay.antt =====
-- The backtest over one bar, on the in-memory venue.
use loss_function.Prelude.{ltb, ℕ, ◌≡◌, refl, none, some, [], ◌∷◌, All}
use loss_function.Prelude.Int.{ℤ, pos}
use loss_function.Domain.Portfolio.{empty}
use loss_function.Broker.Mock.{Venue, mock_broker, set_price, new}
use loss_function.History.{new as new_window}
use loss_function.Strategy.{entry_strategy}
use loss_function.Backtest.{
  Bar, BacktestEngine, BacktestResult, Run, run, start, result_of, turn, feed, sorted, slot,
}
use loss_function.Backtest.Ledger.{run-IsBalanced, settled, IsPriced}
use loss_function.Tests.Samples.{whole, samsung}
use loss_function.Tests.Limits.{seconds_clock}

abbrev first_bar : Bar ℤ ℕ
first_bar = record { symbol = samsung; timestamp = 1; close = pos 490 }

abbrev second_bar : Bar ℤ ℕ
second_bar = record first_bar { timestamp = 2; close = pos 480 }

abbrev engine : BacktestEngine ℤ ℕ ℕ (Venue ℤ ℕ)
engine = record {
  strategy = entry_strategy (record { entry_prices = (samsung, pos 500) ∷ []; quantity = pos 10 });
  config = record {
    initial_cash = pos 100000;
    commission_rate = pos 0;
    tax_rate = pos 0;
    history_capacity = 5;
  };
  risk = none;
  bar_hook = some λ v b. set_price v b.symbol b.close;
}

abbrev before_all : Run ℤ ℕ (Venue ℤ ℕ)
before_all = record {
  history = record { capacity = 5; inner = [] };
  cash = pos 100000;
  fills = [];
  equity_curve = [];
  live_quotes = [];
  order_seq = 0;
  portfolio = empty;
  venue = new;
}

abbrev outcome : BacktestResult ℤ ℕ
outcome =
    result_of seconds_clock (λ n. n) (mock_broker 7) engine
      (turn seconds_clock (λ n. n) (mock_broker 7) engine (λ t. []) before_all first_bar)

run-IsBalanced_example :
    (outcome.cash ≡ settled (pos 100000) outcome.fills) × All (IsPriced engine.config) outcome.fills
unfolding run start feed sorted slot new_window
run-IsBalanced_example =
    run-IsBalanced seconds_clock (λ n. n) (mock_broker 7) engine ltb (λ t. []) (first_bar ∷ []) new
      {result = outcome} refl
