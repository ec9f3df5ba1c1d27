-- ===== src/Strategy/Breakout.antt =====
-- rust/lossfunction/src/strategies.rs: the Donchian breakout. `none` is the panic of `expect` on the
-- maximum of an empty window, which a period of 0 gives.
pub mod Safety
use loss_function.Prelude.{
  ℕ, ◌+◌, ◌-◌, true, false, Option, none, some, List, [], ◌∷◌, foldl, length, take, drop, ltb,
  if◌then◌else◌,
}
use loss_function.Prelude.Int.{ℤ}
use loss_function.Prelude.Text.{text_eq, text_ord, bytes}
use loss_function.Prelude.Maps.{lookup, insert_sorted}
use loss_function.Decimal.{Decimal, lt}
use loss_function.Types.{Symbol, symbol_eq}
use loss_function.Strategy.{
  MarketSnapshot, StrategyDecision, price_shown, Signals, held_shares, label,
}
use loss_function.Strategy.Signals.{signalled, decision}

pub record DonchianBreakoutStrategy : Type 0 where
  pub symbols : List Symbol
  pub period : ℕ
  pub quantity : ℤ

module _ {P : Type 0} where
  -- `closes[closes.len() - 1]` of a list that is not empty
  unfoldable pub last_of : P → List P → P
  last_of x [] = x
  last_of x (y ∷ ys) = last_of y ys

module _ {P : Type 0} ⦃d : Decimal P⦄ where
  -- `iter().max()` and `iter().min()`
  unfoldable pub highest : List P → Option P
  highest [] = none
  highest (x ∷ xs) = some (foldl (λ a b. if d.le a b then b else a) x xs)

  unfoldable pub lowest : List P → Option P
  lowest [] = none
  lowest (x ∷ xs) = some (foldl (λ a b. if d.le a b then a else b) x xs)

module _ {P T : Type 0} ⦃d : Decimal P⦄ where
  -- the turn of the loop for a list of closes that is long enough
  unfoldable pub breakout :
      DonchianBreakoutStrategy
      → MarketSnapshot P T
      → Symbol
      → List P
      → Signals P
      → Option (Signals P)
  breakout b snapshot s [] acc = none
  breakout b snapshot s (x ∷ xs) (intents, features) =
      let closes = x ∷ xs in
      let last = last_of x xs in
      let prior = take b.period (drop (length closes - 1 - b.period) closes) in
      elim (highest prior) [
        | none ↦ none
        | some high ↦ elim (lowest prior) [
          | none ↦ none
          | some low ↦ some (
            signalled (lt high last) (lt last low) (held_shares snapshot s) b.quantity s intents,
            insert_sorted (label s (bytes "prior_low")) (price_shown low)
                (insert_sorted (label s (bytes "prior_high")) (price_shown high) features),
          )
        ]
      ]

  -- the loop of `DonchianBreakoutStrategy::decide`
  unfoldable pub breakout_loop :
      DonchianBreakoutStrategy → MarketSnapshot P T → List Symbol → Signals P → Option (Signals P)
  breakout_loop b snapshot [] acc = some acc
  breakout_loop b snapshot (s ∷ ss) acc = elim (lookup s snapshot.history) [
    | none ↦ breakout_loop b snapshot ss acc
    | some closes ↦ elim (ltb (length closes) (b.period + 1)) [
      | true ↦ breakout_loop b snapshot ss acc
      | false ↦ elim (breakout b snapshot s closes acc) [
        | none ↦ none
        | some acc' ↦ breakout_loop b snapshot ss acc'
      ]
    ]
  ]

  unfoldable pub breakout_decide :
      DonchianBreakoutStrategy → MarketSnapshot P T → Option (StrategyDecision P)
  breakout_decide b snapshot = elim (breakout_loop b snapshot b.symbols ([], [])) [
    | none ↦ none
    | some acc ↦ some (decision (bytes "donchian-breakout") acc)
  ]
