-- ===== src/Runtime.antt =====
-- rust/lossfunction/src/runtime/mod.rs: the runtime that joins strategy, risk checks, gateway and
-- portfolio. The venue is any `Broker`; `checked_at n` and `sent_at n` are the readings of the clocks
-- of the risk manager and of the state machine while order number n is handled.
pub mod Cycle
pub mod Cleared
pub mod Syncing
pub mod Sessions
pub mod Kept
pub mod Once
pub mod Halt
pub mod Assembly
use loss_function.Prelude.{
  ℕ, ◌+◌, ◌%◌, ◌^◌, Bool, true, false, ◌||◌, Option, none, some, List, [], ◌∷◌, ◌++◌, map, foldl,
  Result, ok, err, if◌then◌else◌,
}
use loss_function.Prelude.Int.{ℤ, pos, ltb_ℤ, eqb_ℤ}
use loss_function.Prelude.Text.{Text, text_eq, bytes, padded, show_int}
use loss_function.Prelude.Maps.{Map, lookup, insert, remove}
use loss_function.Prelude.Keys.{Eq}
use loss_function.Decimal.{Decimal}
use loss_function.Types.{OrderSide, buy, Symbol, symbol_eq, Quote}
use loss_function.Domain.{OrderStatus, submitted, partially_filled, filled, unknown, DomainError}
use loss_function.Domain.Order as Order
use loss_function.Domain.Order.{Order}
use loss_function.Domain.Portfolio.{Fill, Portfolio, empty, positions, apply_fill}
use loss_function.Broker.{OrderRequest, OrderAck, ExecutionReport, Position, Broker}
use loss_function.Execution.StateMachine as StateMachine
use loss_function.Execution.StateMachine.{StateMachine, status, transition, status_eq}
use loss_function.Execution.Gateway.{
  World, submit, reconcile, reconcile_pending, target_status, SubmitError,
}
use loss_function.Risk.{Chrono, RiskManager, check_order}
use loss_function.History as History
use loss_function.History.{HistoryWindow}
use loss_function.MarketData.{Bar}
use loss_function.MarketData.Aggregator as Aggregator
use loss_function.MarketData.Aggregator.{Calendar, BarAggregator}
use loss_function.Strategy.{
  MarketSnapshot, OrderIntent, StrategyDecision, Strategy, DecisionLayer, layer, decide,
}

-- The gateway's ids, the machine and the venue's state are the `world`.
pub record TradingRuntime (P T Δ D S : Type 0) : Type 0 where
  pub world : World T S
  pub decisions : DecisionLayer P T
  pub risk : RiskManager P Δ
  pub history : HistoryWindow P
  pub aggregator : BarAggregator P D
  pub quotes : Map Symbol (Quote P T)
  pub portfolio : Portfolio P
  pub order_prefix : Text
  pub order_seq : ℕ  -- u64
  pub open_local : Map Text Text

module _ {P T Δ D S : Type 0} where
  -- `TradingRuntime::new`, on a venue; `none` is the panic of an empty history window
  unfoldable pub new :
      S → Strategy P T → RiskManager P Δ → Text → ℕ → Option (TradingRuntime P T Δ D S)
  new venue strategy risk prefix capacity = elim (History.new capacity) [
    | none ↦ none
    | some window ↦ some (record {
      world = record { broker_ids = []; machine = StateMachine.new; venue = venue };
      decisions = layer strategy false;
      risk = risk;
      history = window;
      aggregator = Aggregator.new;
      quotes = [];
      portfolio = empty;
      order_prefix = prefix;
      order_seq = 0;
      open_local = [];
    })
  ]

  -- `status_of`
  unfoldable pub status_of : TradingRuntime P T Δ D S → Text → Option OrderStatus
  status_of r id = status r.world.machine id

  -- `seed_daily_close`
  unfoldable pub seed_daily_close : TradingRuntime P T Δ D S → Symbol → P → TradingRuntime P T Δ D S
  seed_daily_close r s close = record r { history = History.push r.history s close }

  -- `snapshot`
  unfoldable pub snapshot : TradingRuntime P T Δ D S → MarketSnapshot P T
  snapshot r = record {
    quotes = r.quotes;
    positions = map (λ p. (p.symbol, p)) (positions r.portfolio);
    as_of = r.order_prefix ++ bytes "-session";
    history = History.snapshot r.history;
  }

module _ {P T Δ D S : Type 0} ⦃d : Decimal P⦄ ⦃e : Eq D⦄ (c : Calendar T D) where
  -- the bar that a tick completes enters the history
  unfoldable pub with_bar : Option (Bar P T) → TradingRuntime P T Δ D S → TradingRuntime P T Δ D S
  with_bar none r = r
  with_bar (some b) r = record r { history = History.push r.history b.symbol b.close }

  -- `on_quote`, without the snapshot that it returns
  unfoldable pub on_quote : TradingRuntime P T Δ D S → Quote P T → TradingRuntime P T Δ D S
  on_quote r q =
      let (bar, aggregator) = Aggregator.push c r.aggregator q in
      let fed = with_bar bar (record r { aggregator = aggregator }) in
      record fed { quotes = insert q.symbol q fed.quotes }

-- `matches!(status, Submitted | PartiallyFilled)`
unfoldable pub is_working : OrderStatus → Bool
is_working submitted = true
is_working partially_filled = true
is_working _ = false

module _ {P T Δ D S : Type 0} ⦃d : Decimal P⦄ where
  -- `new_order`: the number is used up also where the order is refused
  unfoldable pub new_order :
      TradingRuntime P T Δ D S
      → OrderIntent P
      → Result DomainError (Order P) × TradingRuntime P T Δ D S
  new_order r i =
      let seq = (r.order_seq + 1) % 2 ^ 64 in
      (
        Order.new (r.order_prefix ++ (45 ∷ padded seq)) i.symbol i.side i.order_type i.quantity
            i.limit_price,
        record r { order_seq = seq },
      )

module _ {P T Δ D S : Type 0} ⦃d : Decimal P⦄ (c : Chrono T Δ) (broker : Broker P T S)
    (checked_at sent_at : ℕ → T) where
  -- what follows the gateway's answer: an acknowledged order is open, all errors are passed over
  unfoldable pub after_submit :
      Order P
      → List (Order P)
      → TradingRuntime P T Δ D S
      → Result SubmitError OrderAck × World T S
      → List (Order P) × TradingRuntime P T Δ D S
  after_submit o sent r (ok ack, w) = (
    sent ++ o ∷ [],
    record r { world = w; open_local = insert o.client_order_id ack.broker_order_id r.open_local },
  )
  after_submit o sent r (err x, w) = (sent, record r { world = w })

  -- an order that is well shaped: the risk check, then the gateway
  unfoldable pub send :
      Order P
      → List (Order P) × TradingRuntime P T Δ D S
      → List (Order P) × TradingRuntime P T Δ D S
  send o (sent, r) = elim (check_order c r.risk (checked_at r.order_seq) o r.portfolio r.quotes) [
    | err x ↦ (sent, r)
    | ok notional ↦ after_submit o sent r (submit broker r.world o (sent_at r.order_seq))
  ]

  -- one turn of the loop over the intents
  unfoldable pub try_intent :
      List (Order P) × TradingRuntime P T Δ D S
      → OrderIntent P
      → List (Order P) × TradingRuntime P T Δ D S
  try_intent (sent, r) i =
      let (made, r') = new_order r i in elim made [ err x ↦ (sent, r') | ok o ↦ send o (sent, r') ]

  -- `run_decision_cycle`
  unfoldable pub run_decision_cycle :
      TradingRuntime P T Δ D S → List (Order P) × TradingRuntime P T Δ D S
  run_decision_cycle r =
      let (decision, l) = decide r.decisions (snapshot r) in
      foldl try_intent ([], record r { decisions = l }) decision.intents
