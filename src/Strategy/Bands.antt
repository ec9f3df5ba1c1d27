-- ===== src/Strategy/Bands.antt =====
-- rust/lossfunction/src/strategies2.rs: the reversion to the Bollinger bands.
pub mod Safety
use loss_function.Prelude.{
  ℕ, ◌-◌, true, false, Option, none, some, List, [], ◌∷◌, map, foldl, length, drop, ltb,
  if◌then◌else◌,
}
use loss_function.Prelude.Int.{ℤ, pos}
use loss_function.Prelude.Text.{text_eq, text_ord, bytes}
use loss_function.Prelude.Maps.{lookup, insert_sorted}
use loss_function.Decimal.{Decimal, sum, lt}
use loss_function.History.{sma}
use loss_function.Types.{Symbol, symbol_eq}
use loss_function.Strategy.{
  MarketSnapshot, StrategyDecision, rounded_shown, Signals, held_shares, label,
}
use loss_function.Strategy.Signals.{signalled}
use loss_function.Strategy.Breakout.{last_of}

-- The floating-point numbers `F` that a decimal is converted to for its root.
pub record Floats (P F : Type 0) : Type 0 where
  pub to_f64 : P → Option F
  pub sqrt : F → F
  pub from_f64_retain : F → Option P

pub record BollingerReversionStrategy (P : Type 0) : Type 0 where
  pub symbols : List Symbol
  pub period : ℕ
  pub sigma_multiplier : P
  pub quantity : ℤ

module _ {P : Type 0} ⦃d : Decimal P⦄ where
  -- the variance of the last closes from their average
  unfoldable pub variance : List P → ℕ → P → P
  variance closes period mid =
      let squares =
        map (λ close. let diff = d.sub close mid in d.mul diff diff)
          (drop (length closes - period) closes) in
      d.div (sum squares) (d.of_int (pos period))

module _ {P F : Type 0} ⦃d : Decimal P⦄ (f : Floats P F) where
  -- `BollingerReversionStrategy::bands`
  unfoldable pub bands : BollingerReversionStrategy P → List P → Option (P × P × P)
  bands b closes = if ltb (length closes) b.period then none else elim (sma closes b.period) [
    | none ↦ none
    | some mid ↦ elim (f.to_f64 (variance closes b.period mid)) [
      | none ↦ none
      | some spread ↦ elim (f.from_f64_retain (f.sqrt spread)) [
        | none ↦ none
        | some sigma ↦
            let band = d.mul sigma b.sigma_multiplier in some (d.sub mid band, mid, d.add mid band)
      ]
    ]
  ]

module _ {P F T : Type 0} ⦃d : Decimal P⦄ (f : Floats P F) where
  -- the turn for the closes of a symbol
  unfoldable pub band_turn :
      BollingerReversionStrategy P → MarketSnapshot P T → Symbol → List P → Signals P → Signals P
  band_turn b snapshot s [] acc = acc
  band_turn b snapshot s (x ∷ xs) (intents, features) = elim (bands f b (x ∷ xs)) [
    | none ↦ (intents, features)
    | some (lower, mid, upper) ↦ (
      signalled (lt (last_of x xs) lower) (lt upper (last_of x xs)) (held_shares snapshot s)
          b.quantity s intents,
      insert_sorted (label s (bytes "upper")) (rounded_shown 2 upper) (
          insert_sorted (label s (bytes "mid")) (rounded_shown 2 mid)
            (insert_sorted (label s (bytes "lower")) (rounded_shown 2 lower) features)),
    )
  ]

  -- one turn of the loop of `decide`
  unfoldable pub band_step :
      BollingerReversionStrategy P → MarketSnapshot P T → Signals P → Symbol → Signals P
  band_step b snapshot acc s = elim (lookup s snapshot.history) [
    | none ↦ acc
    | some closes ↦ band_turn b snapshot s closes acc
  ]

module _ {P : Type 0} where
  -- the decision at the end
  unfoldable pub band_decision : Signals P → StrategyDecision P
  band_decision (intents, features) = record {
    strategy_name = bytes "bollinger-reversion";
    strategy_version = bytes "1";
    intents = intents;
    features = features;
    rationale = elim intents [
      | [] ↦ bytes "no band signals"
      | i ∷ is ↦ bytes "bollinger band reversion"
    ];
  }

module _ {P F T : Type 0} ⦃d : Decimal P⦄ (f : Floats P F) where
  -- `BollingerReversionStrategy::decide`
  unfoldable pub band_decide :
      BollingerReversionStrategy P → MarketSnapshot P T → StrategyDecision P
  band_decide b snapshot = band_decision (foldl (band_step f b snapshot) ([], []) b.symbols)
