-- ===== src/Strategy/Macd.antt =====
-- rust/lossfunction/src/strategies2.rs: the MACD crossover. The outer `none` is a panic: a division by
-- zero or an index out of range. The inner `none` is too short a history.
pub mod Panics
pub mod Safety
use loss_function.Prelude.{
  ℕ, zero, suc, ◌+◌, ◌-◌, true, false, ◌&&◌, Option, none, some, List, [], ◌∷◌, length, get_elem?,
  take, drop, ltb, ◌==◌, if◌then◌else◌, Bool,
}
use loss_function.Prelude.Int.{ℤ, pos}
use loss_function.Prelude.Text.{text_eq, text_ord, bytes}
use loss_function.Prelude.Maps.{lookup, insert_sorted}
use loss_function.Decimal.{Decimal, sum, lt}
use loss_function.Types.{Symbol, symbol_eq}
use loss_function.Strategy.{
  MarketSnapshot, StrategyDecision, flag_shown, Signals, held_shares, label,
}
use loss_function.Strategy.Signals.{signalled}

pub record MacdCrossStrategy : Type 0 where
  pub symbols : List Symbol
  pub fast : ℕ
  pub slow : ℕ
  pub signal : ℕ
  pub quantity : ℤ

module _ {P : Type 0} where
  -- `xs.last()`, and `xs[xs.len() - 2]`
  abbrev pub last : List P → Option P
  last xs = get_elem? xs (length xs - 1)

  abbrev pub before_last : List P → Option P
  before_last xs = if ltb (length xs) 2 then none else get_elem? xs (length xs - 2)

module _ {P : Type 0} ⦃d : Decimal P⦄ where
  -- the loop of `ema_series`, from the value before
  unfoldable pub ema_from : P → P → List P → List P
  ema_from alpha previous [] = []
  ema_from alpha previous (close ∷ closes) =
      let next = d.add (d.mul alpha close) (d.mul (d.sub d.one alpha) previous) in
      next ∷ ema_from alpha next closes

  -- `ema_series`
  unfoldable pub ema_series : List P → ℕ → Option (List P)
  ema_series closes period =
      if ltb (length closes) period
      then some []
      else if period == 0
      then none
      else let alpha = d.div (d.of_int (pos 2)) (d.of_int (pos (period + 1))) in
        let seed = d.div (sum (take period closes)) (d.of_int (pos period)) in
        some (seed ∷ ema_from alpha seed (drop period closes))

  -- the slow averages taken from the fast ones, which are `offset` ahead
  unfoldable pub differences : List P → ℕ → List P → Option (List P)
  differences fast offset [] = some []
  differences fast offset (slow ∷ slows) = elim (get_elem? fast offset) [
    | none ↦ none
    | some value ↦ elim (differences fast (offset + 1) slows) [
      | none ↦ none
      | some rest ↦ some (d.sub value slow ∷ rest)
    ]
  ]

  -- the two tests, on the last two values of the difference and of its signal line
  unfoldable pub crossing : List P → List P → Option (Option (Bool × Bool))
  crossing macd signal_series = elim (last macd) [
    | none ↦ some none
    | some macd_now ↦ elim (last signal_series) [
      | none ↦ some none
      | some signal_now ↦ elim (before_last macd) [
        | none ↦ none
        | some macd_prev ↦ elim (before_last signal_series) [
          | none ↦ none
          | some signal_prev ↦ some (
              some (
                d.le macd_prev signal_prev && lt signal_now macd_now,
                d.le signal_prev macd_prev && lt macd_now signal_now,
              ))
        ]
      ]
    ]
  ]

  -- the end of `cross`, from the difference of the averages
  unfoldable pub signal_cross : ℕ → List P → Option (Option (Bool × Bool))
  signal_cross signal macd =
      if ltb (length macd) (signal + 1) then some none else elim (ema_series macd signal) [
        | none ↦ none
        | some signal_series ↦ crossing macd signal_series
      ]

  -- `MacdCrossStrategy::cross`; a length that goes below zero is a panic
  unfoldable pub cross : MacdCrossStrategy → List P → Option (Option (Bool × Bool))
  cross m closes =
      if ltb (length closes) (m.slow + m.signal)
      then some none
      else elim (ema_series closes m.fast) [
        | none ↦ none
        | some fast_ema ↦ elim (ema_series closes m.slow) [
          | none ↦ none
          | some slow_ema ↦
              if ltb (length fast_ema) (length slow_ema)
              then none
              else elim (differences fast_ema (length fast_ema - length slow_ema) slow_ema) [
                | none ↦ none
                | some macd ↦ signal_cross m.signal macd
              ]
        ]
      ]

module _ {P : Type 0} where
  -- the decision at the end
  unfoldable pub macd_decision : Signals P → StrategyDecision P
  macd_decision (intents, features) = record {
    strategy_name = bytes "macd-cross";
    strategy_version = bytes "1";
    intents = intents;
    features = features;
    rationale = elim intents [ [] ↦ bytes "no macd signals" | i ∷ is ↦ bytes "macd crossover" ];
  }

module _ {P T : Type 0} ⦃d : Decimal P⦄ where
  -- one turn of the loop of `decide`
  unfoldable pub macd_step :
      MacdCrossStrategy → MarketSnapshot P T → Symbol → Signals P → Option (Signals P)
  macd_step m snapshot s (intents, features) = elim (lookup s snapshot.history) [
    | none ↦ some (intents, features)
    | some closes ↦ elim (cross m closes) [
      | none ↦ none
      | some none ↦ some (intents, features)
      | some (some (bullish, bearish)) ↦ some (
        signalled bullish bearish (held_shares snapshot s) m.quantity s intents,
        insert_sorted (label s (bytes "bearish")) (flag_shown bearish)
            (insert_sorted (label s (bytes "bullish")) (flag_shown bullish) features),
      )
    ]
  ]

  unfoldable pub macd_loop :
      MacdCrossStrategy → MarketSnapshot P T → List Symbol → Signals P → Option (Signals P)
  macd_loop m snapshot [] acc = some acc
  macd_loop m snapshot (s ∷ ss) acc = elim (macd_step m snapshot s acc) [
    | none ↦ none
    | some acc' ↦ macd_loop m snapshot ss acc'
  ]

  -- `MacdCrossStrategy::decide`
  unfoldable pub macd_decide : MacdCrossStrategy → MarketSnapshot P T → Option (StrategyDecision P)
  macd_decide m snapshot = elim (macd_loop m snapshot m.symbols ([], [])) [
    | none ↦ none
    | some acc ↦ some (macd_decision acc)
  ]
