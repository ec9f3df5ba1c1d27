-- ===== src/Strategy/Bands/Safety.antt =====
-- The decisions of the reversion to the Bollinger bands.
use loss_function.Prelude.{[], ◌∷◌, All, arith, Option-cases, inl, inr}
use loss_function.Prelude.Maps.{lookup}
use loss_function.Decimal.{Decimal, lt}
use loss_function.Types.{symbol_eq}
use loss_function.Strategy.{MarketSnapshot}
use loss_function.Strategy.Breakout.{last_of}
use loss_function.Strategy.Signals.Safety.{IsSafe, IsTurn, loop-IsSafe}
use loss_function.Strategy.Bands.{
  BollingerReversionStrategy, Floats, bands, band_turn, band_step, band_decision, band_decide,
}

module _ {P F T : Type 0} ⦃d : Decimal P⦄ (f : Floats P F) (snapshot : MarketSnapshot P T) where
  band_step-IsTurn :
      (b : BollingerReversionStrategy P) → IsTurn snapshot b.quantity (band_step f b snapshot)
  unfolding band_step band_turn
  band_step-IsTurn b (intents, features) s = elim (Option-cases (lookup s snapshot.history)) [
    | inl gone ↦ inl (ground (arith, gone))
    | inr ([], found) ↦ inl (ground (arith, found))
    | inr (x ∷ xs, found) ↦ elim (Option-cases (bands f b (x ∷ xs))) [
      | inl short ↦ inl (ground (arith, found, short))
      | inr ((lower, mid, upper), known) ↦
          inr (lt (last_of x xs) lower, lt upper (last_of x xs), ground (arith, found, known))
    ]
  ]

  -- Every intent of the band reversion buys the configured quantity of a symbol of which nothing is
  -- held, or sells shares that are held, at most the configured quantity.
  pub band_decide-IsSafe :
      (b : BollingerReversionStrategy P)
      → All (IsSafe snapshot b.quantity) (band_decide f b snapshot).intents
  unfolding band_decide band_decision
  band_decide-IsSafe b =
      loop-IsSafe snapshot b.quantity (band_step f b snapshot) (band_step-IsTurn b) b.symbols
        ([], []) tt
