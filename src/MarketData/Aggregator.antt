-- ===== src/MarketData/Aggregator.antt =====
-- rust/lossfunction/src/marketdata/aggregator.rs: ticks become daily bars. Of chrono the code shifts
-- an instant, takes its date, and builds an instant from a date and a time of day.
pub mod Bars
pub mod Days
use loss_function.Prelude.{ℕ, Option, none, some, List, [], map, if◌then◌else◌}
use loss_function.Prelude.Int.{pos}
use loss_function.Prelude.Keys.{Eq}
use loss_function.Prelude.Maps.{Map, lookup, insert}
use loss_function.Decimal.{Decimal, lt}
use loss_function.Types.{Symbol, symbol_eq, Quote}
use loss_function.MarketData.{Bar, day}

pub record Calendar (T D : Type 0) : Type 0 where
  -- `timestamp + Duration::hours(h)`
  pub plus_hours : T → ℕ → T
  pub date_naive : T → D
  -- `from_utc_datetime(&date.and_hms_opt(h, m, s))`
  pub at_time : D → ℕ → ℕ → ℕ → T

pub record PartialBar (P D : Type 0) : Type 0 where
  pub date : D
  pub open_price : P
  pub high : P
  pub low : P
  pub close : P

pub record BarAggregator (P D : Type 0) : Type 0 where
  pub inner : Map Symbol (PartialBar P D)

-- `BarAggregator::new`
abbrev pub new : {P D : Type 0} → BarAggregator P D
new = record { inner = [] }

module _ {P D : Type 0} where
  -- a bar that one tick opens
  unfoldable pub first_tick : D → P → PartialBar P D
  first_tick date price = record {
    date = date;
    open_price = price;
    high = price;
    low = price;
    close = price;
  }

  -- `current`
  unfoldable pub current : BarAggregator P D → Symbol → Option (PartialBar P D)
  current a s = lookup s a.inner

-- a later tick of the same date
unfoldable pub next_tick : {P D : Type 0} ⦃d : Decimal P⦄ → PartialBar P D → P → PartialBar P D
next_tick p price = record p {
  high = if lt p.high price then price else p.high;
  low = if lt price p.low then price else p.low;
  close = price;
}

module _ {T D : Type 0} (c : Calendar T D) where
  -- `kst_date`
  unfoldable pub kst_date : T → D
  kst_date t = c.date_naive (c.plus_hours t 9)

  -- `close_instant`
  unfoldable pub close_instant : D → T
  close_instant date = c.at_time date 6 30 0

module _ {P T D : Type 0} (c : Calendar T D) where
  -- the bar that is emitted
  unfoldable pub completed : Symbol → PartialBar P D → Bar P T
  completed s p = record {
    symbol = s;
    timeframe = day;
    timestamp = close_instant c p.date;
    open_price = p.open_price;
    high = p.high;
    low = p.low;
    close = p.close;
    volume = pos 0;
  }

  -- `BarAggregator::flush`: the drained bars, and the empty aggregator
  unfoldable pub flush : BarAggregator P D → List (Bar P T) × BarAggregator P D
  flush a = (map (λ e. completed e.0 e.1) a.inner, record { inner = [] })

module _ {P T D : Type 0} ⦃d : Decimal P⦄ ⦃e : Eq D⦄ (c : Calendar T D) where
  -- the arms of `push`, for what the map holds for the tick's symbol
  unfoldable pub push_onto :
      Option (PartialBar P D) → BarAggregator P D → Quote P T → Option (Bar P T) × BarAggregator P D
  push_onto none a q = (
    none,
    record a { inner = insert q.symbol (first_tick (kst_date c q.timestamp) q.last_price) a.inner },
  )
  push_onto (some p) a q =
      if e.beq p.date (kst_date c q.timestamp)
      then (none, record a { inner = insert q.symbol (next_tick p q.last_price) a.inner })
      else (
        some (completed c q.symbol p),
        record a {
          inner = insert q.symbol (first_tick (kst_date c q.timestamp) q.last_price) a.inner;
        },
      )

  -- `BarAggregator::push`
  unfoldable pub push : BarAggregator P D → Quote P T → Option (Bar P T) × BarAggregator P D
  push a q = push_onto (lookup q.symbol a.inner) a q
