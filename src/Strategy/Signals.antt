-- ===== src/Strategy/Signals.antt =====
-- rust/lossfunction/src/strategies.rs: the three strategies over the closes of completed bars. The
-- loops go over the configured symbols; `none` is a panic.
pub mod Safety
use loss_function.Prelude.{
  ℕ, ◌+◌, ◌-◌, Bool, true, false, ◌&&◌, ◌||◌, Option, none, some, List, [], ◌∷◌, ◌++◌, foldl,
  length, take, drop, ltb, ◌==◌, if◌then◌else◌,
}
use loss_function.Prelude.Int.{ℤ, pos, ltb_ℤ, eqb_ℤ, min_ℤ}
use loss_function.Prelude.Text.{Text, text_eq, text_ord, bytes}
use loss_function.Prelude.Maps.{Map, lookup, insert_sorted}
use loss_function.Decimal.{Decimal, lt, is_zero}
use loss_function.Types.{OrderSide, buy, sell, market, Symbol, symbol_eq}
use loss_function.History.{sma}
use loss_function.Strategy.{
  MarketSnapshot, OrderIntent, StrategyDecision, Shown, flag_shown, count_shown, price_shown,
  rounded_shown, Signals, held_shares, label,
}

pub record SmaCrossStrategy : Type 0 where
  pub symbols : List Symbol
  pub fast_period : ℕ
  pub slow_period : ℕ
  pub quantity : ℤ

-- `SmaCrossStrategy::new`, with its `assert!`
unfoldable pub sma_cross : List Symbol → ℕ → ℕ → ℤ → Option SmaCrossStrategy
sma_cross symbols fast slow quantity =
    if ltb fast slow
    then some
        (record { symbols = symbols; fast_period = fast; slow_period = slow; quantity = quantity })
    else none

pub record RsiReversionStrategy (P : Type 0) : Type 0 where
  pub symbols : List Symbol
  pub period : ℕ
  pub oversold : P
  pub overbought : P
  pub quantity : ℤ

module _ {P : Type 0} where
  -- `intent`
  unfoldable pub intent : Symbol → OrderSide → ℤ → OrderIntent P
  intent s side quantity = record {
    symbol = s;
    side = side;
    order_type = market;
    quantity = quantity;
    limit_price = none;
  }

  -- `decision`
  unfoldable pub decision : Text → Signals P → StrategyDecision P
  decision name (intents, features) = record {
    strategy_name = name;
    strategy_version = bytes "1";
    intents = intents;
    features = features;
    rationale = elim intents [ [] ↦ bytes "no signals" | i ∷ is ↦ name ++ bytes " signals" ];
  }

  -- the `if .. else if ..` at the end of each loop: a buy signal without shares, or a sell signal
  -- with shares
  unfoldable pub signalled :
      Bool → Bool → ℤ → ℤ → Symbol → List (OrderIntent P) → List (OrderIntent P)
  unfolding intent
  signalled up down held quantity s intents =
      if up && eqb_ℤ held (pos 0)
      then intents ++ intent s buy quantity ∷ []
      else if down && ltb_ℤ (pos 0) held
      then intents ++ intent s sell (min_ℤ held quantity) ∷ []
      else intents

  -- `closes[..closes.len() - 1]`
  abbrev pub prefix : List P → List P
  prefix closes = take (length closes - 1) closes

module _ {P : Type 0} ⦃d : Decimal P⦄ where
  -- `SmaCrossStrategy::cross`
  unfoldable pub cross : List P → ℕ → ℕ → Option (Bool × Bool)
  cross closes fast slow = if ltb (length closes) (slow + 1) then none else elim (sma closes fast) [
    | none ↦ none
    | some fast_now ↦ elim (sma closes slow) [
      | none ↦ none
      | some slow_now ↦ elim (sma (prefix closes) fast) [
        | none ↦ none
        | some fast_prev ↦ elim (sma (prefix closes) slow) [
          | none ↦ none
          | some slow_prev ↦ some (
            d.le fast_prev slow_prev && lt slow_now fast_now,
            d.le slow_prev fast_prev && lt fast_now slow_now,
          )
        ]
      ]
    ]
  ]

  -- the loop over `tail.windows(2)`: the gains and the losses, from the close before
  unfoldable pub swings : P → List P → P × P → P × P
  swings before [] acc = acc
  swings before (x ∷ xs) (gains, losses) =
      let change = d.sub x before in
      let acc =
        if lt d.zero change then (d.add gains change, losses) else (gains, d.sub losses change) in
      swings x xs acc

  -- the `match` on the averages
  unfoldable pub strength : P → P → P
  strength gain loss =
      let hundred = d.of_int (pos 100) in
      if is_zero gain && is_zero loss
      then d.of_int (pos 50)
      else if is_zero loss
      then hundred
      else d.sub hundred (d.div hundred (d.add d.one (d.div gain loss)))

  -- the gains and losses of the last closes
  unfoldable pub swings_of : List P → P × P
  swings_of [] = (d.zero, d.zero)
  swings_of (x ∷ xs) = swings x xs (d.zero, d.zero)

  -- `rsi`
  unfoldable pub rsi : List P → ℕ → Option P
  rsi closes period =
      if period == 0 || ltb (length closes) (period + 1)
      then none
      else let (gains, losses) = swings_of (drop (length closes - period - 1) closes) in
        let n = d.of_int (pos period) in some (strength (d.div gains n) (d.div losses n))

module _ {P T : Type 0} ⦃d : Decimal P⦄ where
  -- the loop of `SmaCrossStrategy::decide`
  unfoldable pub cross_step : SmaCrossStrategy → MarketSnapshot P T → Signals P → Symbol → Signals P
  cross_step c snapshot (intents, features) s = elim (lookup s snapshot.history) [
    | none ↦ (intents, features)
    | some closes ↦
        let counted = insert_sorted (label s (bytes "bars")) (count_shown (length closes)) in
        elim (cross closes c.fast_period c.slow_period) [
          | none ↦ (intents, counted features)
          | some (golden, dead) ↦ (
            signalled golden dead (held_shares snapshot s) c.quantity s intents,
            counted (
                insert_sorted (label s (bytes "dead")) (flag_shown dead)
                  (insert_sorted (label s (bytes "golden")) (flag_shown golden) features)),
          )
        ]
  ]

  unfoldable pub cross_decide : SmaCrossStrategy → MarketSnapshot P T → StrategyDecision P
  cross_decide c snapshot =
      decision (bytes "sma-cross") (foldl (cross_step c snapshot) ([], []) c.symbols)

  -- the loop of `RsiReversionStrategy::decide`
  unfoldable pub rsi_step :
      RsiReversionStrategy P → MarketSnapshot P T → Signals P → Symbol → Signals P
  rsi_step r snapshot (intents, features) s = elim (lookup s snapshot.history) [
    | none ↦ (intents, features)
    | some closes ↦ elim (rsi closes r.period) [
      | none ↦ (intents, features)
      | some value ↦ (
        signalled (lt value r.oversold) (lt r.overbought value) (held_shares snapshot s) r.quantity
            s intents,
        insert_sorted (label s (bytes "rsi")) (rounded_shown 2 value) features,
      )
    ]
  ]

  unfoldable pub rsi_decide : RsiReversionStrategy P → MarketSnapshot P T → StrategyDecision P
  rsi_decide r snapshot =
      decision (bytes "rsi-reversion") (foldl (rsi_step r snapshot) ([], []) r.symbols)
