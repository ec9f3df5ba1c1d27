-- ===== src/Strategy/Registry.antt =====
-- rust/lossfunction/src/strategy_registry.rs: the strategies by their keys, with the default parameters,
-- and strategies_generated.rs, which has none at this commit. The texts of the catalog are left out.
pub mod Decisions
use loss_function.Prelude.{ℕ, true, false, Option, none, some, List, if◌then◌else◌}
use loss_function.Prelude.Int.{ℤ, pos}
use loss_function.Prelude.Text.{Text, text_beq, bytes}
use loss_function.Decimal.{Decimal}
use loss_function.Types.{Symbol}
use loss_function.Strategy.{MarketSnapshot, StrategyDecision}
use loss_function.Strategy.Signals.{
  SmaCrossStrategy, RsiReversionStrategy, sma_cross, cross_decide, rsi_decide,
}
use loss_function.Strategy.Breakout.{DonchianBreakoutStrategy, breakout_decide}
use loss_function.Strategy.Bands.{BollingerReversionStrategy, Floats, band_decide}
use loss_function.Strategy.Rotation.{MomentumRotationStrategy, rotation_decide}
use loss_function.Strategy.Macd.{MacdCrossStrategy, macd_decide}

-- `Box<dyn Strategy>`, of the strategies that the registry builds
pub data Built (P : Type 0) : Type 0 where
  crossing : SmaCrossStrategy → Built P
  reverting : RsiReversionStrategy P → Built P
  breaking : DonchianBreakoutStrategy → Built P
  banded : BollingerReversionStrategy P → Built P
  rotating : MomentumRotationStrategy → Built P
  converging : MacdCrossStrategy → Built P

module _ {P F T : Type 0} ⦃d : Decimal P⦄ (f : Floats P F) where
  -- The call of `decide` on the box. `none` is a panic by an index, a period of zero or an empty window,
  -- which three of the strategies cannot have; a panic by an overflow of a decimal operator is left out.
  unfoldable pub dispatch : Built P → MarketSnapshot P T → Option (StrategyDecision P)
  dispatch (crossing c) snapshot = some (cross_decide c snapshot)
  dispatch (reverting r) snapshot = some (rsi_decide r snapshot)
  dispatch (breaking b) snapshot = breakout_decide b snapshot
  dispatch (banded b) snapshot = some (band_decide f b snapshot)
  dispatch (rotating m) snapshot = rotation_decide m snapshot
  dispatch (converging m) snapshot = macd_decide m snapshot

-- `strategies_generated::build`
unfoldable pub generated : {P : Type 0} → Text → List Symbol → ℤ → Option (Built P)
generated key symbols quantity = none

module _ {P : Type 0} ⦃d : Decimal P⦄ where
  -- `build`; the outer `none` is a panic of a constructor
  unfoldable pub build : Text → List Symbol → ℤ → Option (Option (Built P))
  build key symbols quantity =
      if text_beq key (bytes "sma-cross")
      then elim (sma_cross symbols 5 20 quantity) [
        | none ↦ none
        | some c ↦ some (some (crossing c))
      ]
      else if text_beq key (bytes "rsi-reversion")
      then some (
          some (
            reverting (record {
              symbols = symbols;
              period = 14;
              oversold = d.of_int (pos 30);
              overbought = d.of_int (pos 70);
              quantity = quantity;
            })))
      else if text_beq key (bytes "donchian-breakout")
      then some (some (breaking (record { symbols = symbols; period = 20; quantity = quantity })))
      else if text_beq key (bytes "bollinger-reversion")
      then some (
          some (
            banded (record {
              symbols = symbols;
              period = 20;
              sigma_multiplier = d.of_int (pos 2);
              quantity = quantity;
            })))
      else if text_beq key (bytes "momentum-rotation")
      then some (some (rotating (record { symbols = symbols; top_n = 1; quantity = quantity })))
      else if text_beq key (bytes "macd-cross")
      then some (
          some (
            converging (record {
              symbols = symbols;
              fast = 12;
              slow = 26;
              signal = 9;
              quantity = quantity;
            })))
      else some (generated key symbols quantity)
