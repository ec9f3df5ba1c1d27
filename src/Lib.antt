-- ===== src/Lib.antt =====
-- The trading core of the Rust program under rust/lossfunction/src, and what is true of it.
--
-- The program takes quotes, lets a strategy decide, checks the orders against risk limits, sends
-- them to a venue, follows each order through a state machine, and books the fills into a
-- portfolio. The parts, and the files that model them:
--
-- - types.rs: Types. Tickers are validated texts; a quantity is an `i64`.
-- - domain/order.rs, domain/portfolio.rs, domain/mod.rs: Domain, Domain/Order, Domain/Portfolio.
--   An operation on an order or on a portfolio returns the new value or a `DomainError`.
-- - broker/mod.rs: Broker. The trait `Broker` is a record of functions that pass the venue's state.
--   broker/mock.rs: Broker/Mock, the venue in memory, which fills this record.
-- - execution/state_machine.rs: Execution/StateMachine. The two maps are association lists; the
--   callback is a flag and the list of its calls.
-- - execution/gateway.rs: Execution/Gateway. `submit` and the reconciler take any venue, the
--   machine of their caller and the gateway's ids. The code awaits the venue inside one call that
--   owns the machine, so a call is one step. `reconcile_pending` goes over the map in any order.
-- - execution/vwap.rs: Execution/Vwap. risk.rs: Risk. history.rs: History.
-- - marketdata/mod.rs: MarketData and MarketData/Backfill, over any source and any store of candles.
--   marketdata/aggregator.rs: MarketData/Aggregator.
-- - strategy.rs: Strategy. strategies.rs: Strategy/Signals and Strategy/Breakout. strategies2.rs:
--   Strategy/Bands, Strategy/Rotation and Strategy/Macd. strategy_registry.rs: Strategy/Registry.
-- - config.rs: Config (the settings), Config/Reading (one variable), Config/Loading (`load` and
--   `validate`). The environment is a function from keys to what `env::var` answers.
-- - kis: Kis has the interfaces to reqwest, serde_json and chrono; Kis/Auth is auth.rs; Kis/Rest,
--   Kis/Orders, Kis/Accounts and Kis/Reports are rest.rs; Kis/Venue is broker.rs, which fills the
--   record `Broker`. A method passes the client and the state of the outside world on. The loop of
--   `request` is unrolled: its flag `reissued` lets it go round at most twice. chart.rs is Kis/Chart
--   (the rows) and Kis/Chart/Walk (the pages and the work stack); a date is the number of its day.
-- - runtime/mod.rs: Runtime (cycles) and Runtime/Syncing (execution syncs, recovery), over any venue.
--   runtime/assembly.rs: Runtime/Assembly.
-- - backtest.rs: Backtest, with the loop of `run` over the bars of the feed as a fold of one turn;
--   Backtest/Summary is `summarize`.
--
-- Prelude holds what the parts share: Boolean tests, lists, results, integers, maps and texts.
-- Decimal is the interface to `rust_decimal`: the operators that the code calls, and of their laws
-- only that the comparison is a total order. The operators are total there, so a panic by the
-- overflow of a decimal is left out, and results on code that calculates are on calls without one.
-- Chrono (in Risk) and Calendar (in MarketData/Aggregator) are the interfaces to the clock and the
-- calendar; a reading of the clock is an argument of the operation that reads it. Tests has each
-- result at a concrete input.
--
-- Bounds: an `i64` wraps at 64 bits, as in the release profile; results on shares carry the
-- hypothesis that the quantities fit, where it is needed. Loops are recursion on the list that
-- they run over, so there is no fuel, with three exceptions: the digits of a number (`show_nat`), where
-- n + 1 steps are enough since each divides by ten; the windows of `daily_bars`, with a step for each
-- day; and its work stack, with twice the days as fuel, since a split takes one from that. A panic is
-- `none`.
--
-- Not modelled: the candle loader of backtest.rs, the optimiser, the
-- texts of the strategy catalog, the storage (SQL), the quote stream and the screener of KIS, the regime
-- analysis (an outside model), the loops and the web pages of the runtime,
-- and the Python reference. The English of a risk rejection and of a settings error is kept as the
-- values that it shows, and so are the features of a decision.
pub mod Prelude
pub mod Decimal
pub mod Types
pub mod Domain
pub mod Broker
pub mod Execution
pub mod Risk
pub mod History
pub mod MarketData
pub mod Strategy
pub mod Backtest
pub mod Config
pub mod Kis
pub mod Runtime
pub mod Tests
