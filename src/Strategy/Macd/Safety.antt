-- ===== src/Strategy/Macd/Safety.antt =====
-- The decisions of the MACD crossover.
use loss_function.Prelude.{
  ◌≤◌, ◌<◌, ◌≡◌, refl, some, List, [], ◌∷◌, All, arith, Option-cases, inl, inr,
}
use loss_function.Prelude.Maps.{lookup, insert_sorted}
use loss_function.Decimal.{Decimal}
use loss_function.Types.{Symbol, symbol_eq}
use loss_function.Strategy.{
  MarketSnapshot, StrategyDecision, Signals, held_shares, label, flag_shown,
}
use loss_function.Prelude.Text.{text_eq, text_ord, bytes}
use loss_function.Strategy.Signals.{signalled}
use loss_function.Strategy.Signals.Safety.{IsSafe, signalled-IsSafe}
use loss_function.Strategy.Macd.{
  MacdCrossStrategy, macd_step, macd_loop, macd_decision, macd_decide,
}
use loss_function.Strategy.Macd.Panics.{cross_ready}

module _ {P T : Type 0} ⦃d : Decimal P⦄ (m : MacdCrossStrategy) (snapshot : MarketSnapshot P T)
    (quick : 0 < m.fast) (slower : m.fast ≤ m.slow) (smooth : 0 < m.signal) where
  macd_step-IsSafe :
      (s : Symbol) (acc : Signals P)
      → All (IsSafe snapshot m.quantity) acc.0
      → (next : Signals P) × (macd_step m snapshot s acc ≡ some next)
        × All (IsSafe snapshot m.quantity) next.0
  unfolding macd_step
  macd_step-IsSafe s (intents, features) h = elim (Option-cases (lookup s snapshot.history)) [
    | inl gone ↦ ((intents, features), ground (arith, gone), h)
    | inr (closes, found) ↦
        let (answer, ready, _) = cross_ready m closes quick slower smooth in
        elim (Option-cases answer) [
          | inl few ↦ ((intents, features), ground (arith, found, ready, few), h)
          | inr ((bullish, bearish), known) ↦ (
            (
              signalled bullish bearish (held_shares snapshot s) m.quantity s intents,
              insert_sorted (label s (bytes "bearish")) (flag_shown bearish)
                  (insert_sorted (label s (bytes "bullish")) (flag_shown bullish) features),
            ),
            ground (arith, found, ready, known),
            signalled-IsSafe snapshot bullish bearish m.quantity s intents h,
          )
        ]
  ]

  macd_loop-IsSafe :
      (ss : List Symbol) (acc : Signals P)
      → All (IsSafe snapshot m.quantity) acc.0
      → (last : Signals P) × (macd_loop m snapshot ss acc ≡ some last)
        × All (IsSafe snapshot m.quantity) last.0
  unfolding macd_loop
  macd_loop-IsSafe [] acc h = (acc, refl, h)
  macd_loop-IsSafe (s ∷ ss) acc h =
      let (next, stepped, safe) = macd_step-IsSafe s acc h in
      let (last, looped, held) = macd_loop-IsSafe ss next safe in
      (last, ground (arith, stepped, looped), held)

  -- With periods of at least one, the fast one not above the slow one, the MACD crossover always
  -- decides, and every intent buys the configured quantity of a symbol of which nothing is held, or
  -- sells shares that are held, at most the configured quantity.
  pub macd_decides :
      (decision : StrategyDecision P) × (macd_decide m snapshot ≡ some decision)
      × All (IsSafe snapshot m.quantity) decision.intents
  unfolding macd_decide macd_decision
  macd_decides =
      let (last, looped, safe) = macd_loop-IsSafe m.symbols ([], []) tt in
      (macd_decision last, ground (arith, looped), safe)
