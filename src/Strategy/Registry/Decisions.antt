-- ===== src/Strategy/Registry/Decisions.antt =====
-- Whatever the registry builds decides safely.
use loss_function.Prelude.{◌≡◌, Option, none, some, All}
use loss_function.Prelude.Int.{ℤ}
use loss_function.Prelude.Text.{Text}
use loss_function.Decimal.{Decimal}
use loss_function.Strategy.{MarketSnapshot, StrategyDecision}
use loss_function.Strategy.Signals.Safety.{IsSafe}
use loss_function.Strategy.Bands.{Floats}
use loss_function.Strategy.Registry.{Built, dispatch}

module _ {P F T : Type 0} ⦃d : Decimal P⦄ (f : Floats P F) (snapshot : MarketSnapshot P T)
    (quantity : ℤ) where
  -- What a key gives: no strategy, or one that decides with safe intents only.
  abbrev pub IsSound : Option (Built P) → Type 0
  IsSound none = Unit
  IsSound (some built) =
      (answer : StrategyDecision P) × (dispatch f built snapshot ≡ some answer)
      × All (IsSafe snapshot quantity) answer.intents
