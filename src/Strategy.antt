-- ===== src/Strategy.antt =====
-- rust/lossfunction/src/strategy.rs: what a strategy sees and returns, the layer that records every
-- decision, and the entry-price strategy. A feature's value is kept as what its `to_string` shows.
pub mod Entry
pub mod Signals
pub mod Breakout
pub mod Macd
pub mod Bands
pub mod Rotation
pub mod Registry
use loss_function.Prelude.{
  ℕ, Bool, true, false, ◌&&◌, Option, none, some, List, [], ◌∷◌, ◌++◌, if◌then◌else◌, foldl,
}
use loss_function.Prelude.Int.{ℤ, pos, eqb_ℤ}
use loss_function.Prelude.Text.{Text, text_eq, text_ord, bytes}
use loss_function.Prelude.Maps.{Map, lookup, insert_sorted}
use loss_function.Decimal.{Decimal}
use loss_function.Types.{OrderSide, buy, OrderType, limit, Symbol, symbol_eq, Quote}
use loss_function.Domain.Portfolio.{PositionState}

pub record MarketSnapshot (P T : Type 0) : Type 0 where
  pub quotes : Map Symbol (Quote P T)
  pub positions : Map Symbol (PositionState P)
  pub as_of : Text
  pub history : Map Symbol (List P)

pub record OrderIntent (P : Type 0) : Type 0 where
  pub symbol : Symbol
  pub side : OrderSide
  pub order_type : OrderType
  pub quantity : ℤ
  pub limit_price : Option P

-- what a feature shows
pub data Shown (P : Type 0) : Type 0 where
  no_quote_shown : Shown P
  price_shown : P → Shown P
  rounded_shown : ℕ → P → Shown P
  quantity_shown : ℤ → Shown P
  count_shown : ℕ → Shown P
  flag_shown : Bool → Shown P

pub record StrategyDecision (P : Type 0) : Type 0 where
  pub strategy_name : Text
  pub strategy_version : Text
  pub intents : List (OrderIntent P)
  pub features : Map Text (Shown P)
  pub rationale : Text

-- `trait Strategy`
pub record Strategy (P T : Type 0) : Type 0 where
  pub name : Text
  pub version : Text
  pub decide : MarketSnapshot P T → StrategyDecision P

pub record DecisionLayer (P T : Type 0) : Type 0 where
  pub strategy : Strategy P T
  -- whether a callback is set
  pub on_decision : Bool
  pub decisions : List (StrategyDecision P)
  -- the calls of the callback, oldest first
  pub recorded : List (StrategyDecision P × MarketSnapshot P T)

module _ {P T : Type 0} where
  -- `DecisionLayer::new` and `with_recording`
  unfoldable pub layer : Strategy P T → Bool → DecisionLayer P T
  layer strategy on_decision = record {
    strategy = strategy;
    on_decision = on_decision;
    decisions = [];
    recorded = [];
  }

  -- `DecisionLayer::decide`
  unfoldable pub decide :
      DecisionLayer P T → MarketSnapshot P T → StrategyDecision P × DecisionLayer P T
  decide l snapshot =
      let decision = l.strategy.decide snapshot in
      (
        decision,
        record l {
          decisions = l.decisions ++ decision ∷ [];
          recorded = if l.on_decision then l.recorded ++ (decision, snapshot) ∷ [] else l.recorded;
        },
      )

  -- the shares held of a symbol, zero without a position
  unfoldable pub held_shares : MarketSnapshot P T → Symbol → ℤ
  held_shares snapshot s = elim (lookup s snapshot.positions) [ none ↦ pos 0 | some p ↦ p.quantity ]

-- `format!("{symbol}:{label}")`
abbrev pub label : Symbol → Text → Text
label s l = s.text ++ (58 ∷ l)

pub record EntryPriceStrategy (P : Type 0) : Type 0 where
  pub entry_prices : Map Symbol P
  pub quantity : ℤ

-- The accumulators of a strategy's loop: the intents and the features.
abbrev pub Signals : Type 0 → Type 0
Signals P = List (OrderIntent P) × Map Text (Shown P)

module _ {P : Type 0} ⦃d : Decimal P⦄ where
  -- the intents after an entry whose symbol has a quote
  unfoldable pub enter : ℤ → ℤ → Symbol → P → P → List (OrderIntent P) → List (OrderIntent P)
  enter quantity held s entry price intents =
      if eqb_ℤ held (pos 0) && d.le price entry
      then intents
        ++ record {
          symbol = s;
          side = buy;
          order_type = limit;
          quantity = quantity;
          limit_price = some price;
        }
          ∷ []
      else intents

module _ {P T : Type 0} ⦃d : Decimal P⦄ where
  -- one turn of the loop of `decide`
  unfoldable pub entry_step : ℤ → MarketSnapshot P T → Signals P → Symbol × P → Signals P
  entry_step quantity snapshot (intents, features) (s, entry) = elim (lookup s snapshot.quotes) [
    | none ↦ (intents, insert_sorted s.text no_quote_shown features)
    | some quote ↦
        let held = held_shares snapshot s in
        (
          enter quantity held s entry quote.last_price intents,
          insert_sorted (label s (bytes "held")) (quantity_shown held) (
              insert_sorted (label s (bytes "entry")) (price_shown entry)
                (insert_sorted (label s (bytes "price")) (price_shown quote.last_price) features)),
        )
  ]

  -- `EntryPriceStrategy::decide`
  unfoldable pub entry_decide : EntryPriceStrategy P → MarketSnapshot P T → StrategyDecision P
  entry_decide e snapshot =
      let (intents, features) = foldl (entry_step e.quantity snapshot) ([], []) e.entry_prices in
      record {
        strategy_name = bytes "entry-price";
        strategy_version = bytes "1";
        intents = intents;
        features = features;
        rationale = elim intents [
          | [] ↦ bytes "no entry signals"
          | i ∷ is ↦ bytes "buy symbols at/below entry with no existing position"
        ];
      }

  -- `impl Strategy for EntryPriceStrategy`
  abbrev pub entry_strategy : EntryPriceStrategy P → Strategy P T
  entry_strategy e = record {
    name = bytes "entry-price";
    version = bytes "1";
    decide = entry_decide e;
  }
