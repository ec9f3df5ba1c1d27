-- ===== src/Tests/Decisions.antt =====
-- The strategies at a concrete snapshot.
use loss_function.Prelude.{ℕ, true, some, [], ◌∷◌}
use loss_function.Prelude.Int.{ℤ, pos}
use loss_function.Strategy.{entry_strategy, MarketSnapshot, DecisionLayer, EntryPriceStrategy}
use loss_function.Strategy.Bands.{Floats}
use loss_function.Tests.Samples.{whole, samsung}

abbrev seen : MarketSnapshot ℤ ℕ
seen = record {
  quotes = (samsung, record { symbol = samsung; last_price = pos 490; timestamp = 1 }) ∷ [];
  positions = [];
  as_of = [];
  history = (samsung, pos 500 ∷ pos 480 ∷ pos 470 ∷ pos 530 ∷ []) ∷ [];
}

abbrev at_500 : EntryPriceStrategy ℤ
at_500 = record { entry_prices = (samsung, pos 500) ∷ []; quantity = pos 10 }

abbrev recorder : DecisionLayer ℤ ℕ
recorder = record {
  strategy = entry_strategy at_500;
  on_decision = true;
  decisions = [];
  recorded = [];
}

-- whole numbers for floating-point ones
abbrev floats : Floats ℤ ℤ
floats = record { to_f64 = λ a. some a; sqrt = λ a. a; from_f64_retain = λ a. some a }
