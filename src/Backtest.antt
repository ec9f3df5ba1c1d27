-- ===== src/Backtest.antt =====
-- rust/lossfunction/src/backtest.rs: the bar feed and the engine. The engine's clock is that of its
-- risk manager, a reading for each order; `rfc3339` is chrono's text of an instant; `before` is the
-- order of instants.
pub mod Feed
pub mod Ledger
pub mod Summary
use loss_function.Prelude.{
  ℕ, ◌+◌, ◌%◌, ◌^◌, ◌-◌, Bool, true, false, Option, none, some, List, [], ◌∷◌, ◌++◌, map, foldl,
  Result, ok, err, length, get_elem?, ltb, unwrap_or, if◌then◌else◌,
}
use loss_function.Prelude.Int.{ℤ, pos, ltb_ℤ}
use loss_function.Prelude.Text.{Text, bytes, padded}
use loss_function.Prelude.Maps.{Map, insert}
use loss_function.Decimal.{Decimal, sum}
use loss_function.Types.{OrderSide, buy, sell, Symbol, symbol_eq, Quote}
use loss_function.Domain.Order as Order
use loss_function.Domain.Portfolio.{Fill, Portfolio, empty, positions, apply_fill}
use loss_function.Broker.{OrderRequest, ExecutionReport, Broker}
use loss_function.Risk.{Chrono, RiskManager, check_order, gross_exposure}
use loss_function.History.{HistoryWindow, push, snapshot, new as new_window}
use loss_function.Strategy.{MarketSnapshot, OrderIntent, Strategy}

pub record Bar (P T : Type 0) : Type 0 where
  pub symbol : Symbol
  pub timestamp : T
  pub close : P

pub record BacktestConfig (P : Type 0) : Type 0 where
  pub initial_cash : P
  pub commission_rate : P
  pub tax_rate : P
  pub history_capacity : ℕ

pub record FillRecord (P T : Type 0) : Type 0 where
  pub client_order_id : Text
  pub symbol : Symbol
  pub side : OrderSide
  pub quantity : ℤ
  pub price : P
  pub commission : P
  pub tax : P
  pub timestamp : T

pub record LookaheadError : Type 0 where
  pub index : ℕ
  pub cursor : ℕ

pub record BacktestFeed (P T : Type 0) : Type 0 where
  pub bars : List (Bar P T)
  pub cursor : ℕ

module _ {P T : Type 0} where
  -- `sort_by` on instants, stable
  unfoldable pub slot : (T → T → Bool) → Bar P T → List (Bar P T) → List (Bar P T)
  slot before b [] = b ∷ []
  slot before b (c ∷ cs) =
      if before c.timestamp b.timestamp then c ∷ slot before b cs else b ∷ c ∷ cs

  unfoldable pub sorted : (T → T → Bool) → List (Bar P T) → List (Bar P T)
  sorted before [] = []
  sorted before (b ∷ bs) = slot before b (sorted before bs)

  -- `BacktestFeed::new`
  unfoldable pub feed : (T → T → Bool) → List (Bar P T) → BacktestFeed P T
  feed before bars = record { bars = sorted before bars; cursor = 0 }

  -- `has_next`
  unfoldable pub has_next : BacktestFeed P T → Bool
  has_next f = ltb f.cursor (length f.bars)

  -- `advance`
  unfoldable pub advance : BacktestFeed P T → Option (Bar P T) × BacktestFeed P T
  advance f = elim (get_elem? f.bars f.cursor) [
    | none ↦ (none, f)
    | some b ↦ (some b, record f { cursor = f.cursor + 1 })
  ]

  -- `bar_at`; the outer `none` is the panic of an index that is out of range
  unfoldable pub bar_at : BacktestFeed P T → ℕ → Option (Result LookaheadError (Bar P T))
  bar_at f index =
      if ltb index f.cursor
      then elim (get_elem? f.bars index) [ none ↦ none | some b ↦ some (ok b) ]
      else some (err (record { index = index; cursor = f.cursor }))

-- `format!("bt-{:04}", n)`
unfoldable pub order_text : ℕ → Text
order_text n = bytes "bt-" ++ padded n

-- The local variables of `run`, and the venue.
pub record Run (P T S : Type 0) : Type 0 where
  pub history : HistoryWindow P
  pub cash : P
  pub fills : List (FillRecord P T)
  pub equity_curve : List (T × P)
  pub live_quotes : Map Symbol (Quote P T)
  pub order_seq : ℕ
  pub portfolio : Portfolio P
  pub venue : S

pub record BacktestEngine (P T Δ S : Type 0) : Type 0 where
  pub strategy : Strategy P T
  pub config : BacktestConfig P
  pub risk : Option (RiskManager P Δ)
  pub bar_hook : Option (S → Bar P T → S)

pub record BacktestResult (P T : Type 0) : Type 0 where
  pub cash : P
  pub total_commission : P
  pub total_tax : P
  pub equity : P
  pub equity_curve : List (T × P)
  pub fills : List (FillRecord P T)

-- `build_request`, with the number that it counts up to
unfoldable pub build_request : {P : Type 0} → ℕ → OrderIntent P → OrderRequest P
build_request seq i = record {
  client_order_id = order_text seq;
  symbol = i.symbol;
  side = i.side;
  order_type = i.order_type;
  quantity = i.quantity;
  limit_price = i.limit_price;
}

-- `preflight`
unfoldable pub preflight :
    {P T Δ : Type 0} ⦃d : Decimal P⦄
    → Chrono T Δ
    → T
    → Option (RiskManager P Δ)
    → OrderRequest P
    → Portfolio P
    → Map Symbol (Quote P T)
    → Option P
preflight ⦃d⦄ c now none order portfolio quotes = some d.zero
preflight ⦃d⦄ c now (some risk) order portfolio quotes =
    elim (Order.new order.client_order_id order.symbol order.side order.order_type order.quantity
      order.limit_price) [
        | err e ↦ none
        | ok o ↦ elim (check_order c risk now o portfolio quotes) [ err e ↦ none | ok n ↦ some n ]
      ]

module _ {P T : Type 0} ⦃d : Decimal P⦄ where
  -- the record of a fill
  unfoldable pub record_of :
      BacktestConfig P → Bar P T → OrderRequest P → ExecutionReport P T → FillRecord P T
  record_of config bar order report =
      let price = unwrap_or report.average_fill_price bar.close in
      let notional = d.mul (d.of_int report.filled_quantity) price in
      record {
        client_order_id = order.client_order_id;
        symbol = order.symbol;
        side = order.side;
        quantity = report.filled_quantity;
        price = price;
        commission = d.mul notional config.commission_rate;
        tax = elim order.side [ buy ↦ d.zero | sell ↦ d.mul notional config.tax_rate ];
        timestamp = bar.timestamp;
      }

  -- the cash after a fill
  unfoldable pub cash_after : P → FillRecord P T → P
  cash_after cash f =
      let notional = d.mul (d.of_int f.quantity) f.price in
      elim f.side [
        | buy ↦ d.sub (d.sub cash notional) f.commission
        | sell ↦ d.sub (d.sub (d.add cash notional) f.commission) f.tax
      ]

-- `equity_curve.last()`
unfoldable pub last_equity : {P T : Type 0} → List (T × P) → Option P
last_equity [] = none
last_equity (p ∷ []) = some p.1
last_equity (p ∷ q ∷ ps) = last_equity (q ∷ ps)

module _ {P T S : Type 0} ⦃d : Decimal P⦄ where
  -- what a filled order does to the run; a fill that the portfolio refuses still moves the cash
  unfoldable pub book : FillRecord P T → Run P T S → Run P T S
  book f r =
      let fill : Fill P = record {
        client_order_id = f.client_order_id;
        symbol = f.symbol;
        side = f.side;
        quantity = f.quantity;
        price = f.price;
      } in
      record r {
        cash = cash_after r.cash f;
        portfolio = elim (apply_fill r.portfolio fill) [ err e ↦ r.portfolio | ok next ↦ next ];
        fills = r.fills ++ f ∷ [];
      }

module _ {P T Δ S : Type 0} ⦃d : Decimal P⦄ (c : Chrono T Δ) (clock : ℕ → T) (broker : Broker P T S)
    (e : BacktestEngine P T Δ S) where
  -- an order that passed the checks
  unfoldable pub place : Bar P T → OrderRequest P → Run P T S → Run P T S
  place bar order r =
      let (answer, v) = broker.submit_order r.venue order in
      elim answer [
        | err x ↦ record r { venue = v }
        | ok ack ↦
            let (reply, v') = broker.execution_report v ack.broker_order_id in
            elim reply [
              | err x ↦ record r { venue = v' }
              | ok report ↦
                  if ltb_ℤ (pos 0) report.filled_quantity
                  then book (record_of e.config bar order report) (record r { venue = v' })
                  else record r { venue = v' }
            ]
      ]

  -- one turn of the loop over the intents
  unfoldable pub trade : Bar P T → Run P T S → OrderIntent P → Run P T S
  trade bar r intent =
      let seq = (r.order_seq + 1) % 2 ^ 64 in
      let order = build_request seq intent in
      let r' = record r { order_seq = seq } in
      elim (preflight c (clock seq) e.risk order r.portfolio r.live_quotes) [
        | none ↦ r'
        | some notional ↦ place bar order r'
      ]

  -- the start of a turn of the loop over the bars: the hook and the quote
  unfoldable pub open_bar : Bar P T → Run P T S → Run P T S
  open_bar bar r = record r {
    venue = elim e.bar_hook [ none ↦ r.venue | some hook ↦ hook r.venue bar ];
    live_quotes =
        insert bar.symbol
          (record { symbol = bar.symbol; last_price = bar.close; timestamp = bar.timestamp })
          r.live_quotes;
  }

  -- what the strategy sees
  unfoldable pub seen : (T → Text) → Bar P T → Run P T S → MarketSnapshot P T
  seen rfc3339 bar r = record {
    quotes = r.live_quotes;
    positions = map (λ p. (p.symbol, p)) (positions r.portfolio);
    as_of = rfc3339 bar.timestamp;
    history = snapshot r.history;
  }

  -- the end of the turn: the close enters the history, and the equity the curve
  unfoldable pub close_bar : Bar P T → Run P T S → Run P T S
  close_bar bar r = record r {
    history = push r.history bar.symbol bar.close;
    equity_curve =
        r.equity_curve
        ++ (bar.timestamp, d.add r.cash (gross_exposure r.portfolio r.live_quotes)) ∷ [];
  }

  -- one turn of the loop over the bars
  unfoldable pub turn : (T → Text) → Run P T S → Bar P T → Run P T S
  turn rfc3339 r bar =
      let opened = open_bar bar r in
      close_bar bar (foldl (trade bar) opened (e.strategy.decide (seen rfc3339 bar opened)).intents)

  -- the locals before the loop; `none` is the panic of an empty history window
  unfoldable pub start : S → Option (Run P T S)
  start venue = elim (new_window e.config.history_capacity) [
    | none ↦ none
    | some h ↦ some (record {
      history = h;
      cash = e.config.initial_cash;
      fills = [];
      equity_curve = [];
      live_quotes = [];
      order_seq = 0;
      portfolio = empty;
      venue = venue;
    })
  ]

  -- the `BacktestResult` at the end
  unfoldable pub result_of : Run P T S → BacktestResult P T
  result_of r = record {
    cash = r.cash;
    total_commission = sum (map (λ f. f.commission) r.fills);
    total_tax = sum (map (λ f. f.tax) r.fills);
    equity = unwrap_or (last_equity r.equity_curve) e.config.initial_cash;
    equity_curve = r.equity_curve;
    fills = r.fills;
  }

  -- `BacktestEngine::run`: the loop takes the bars in the order in which the feed gives them
  unfoldable pub run :
      (T → T → Bool) → (T → Text) → List (Bar P T) → S → Option (BacktestResult P T)
  run before rfc3339 bars venue = elim (start venue) [
    | none ↦ none
    | some r ↦ some (result_of (foldl (turn rfc3339) r (feed before bars).bars))
  ]
