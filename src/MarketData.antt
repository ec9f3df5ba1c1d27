-- ===== src/MarketData.antt =====
-- rust/lossfunction/src/marketdata/mod.rs: a completed bar.
pub mod Aggregator
pub mod Backfill
use loss_function.Prelude.Int.{ℤ}
use loss_function.Prelude.Text.{Text, bytes}
use loss_function.Types.{Symbol}

pub data Timeframe : Type 0 where
  day : Timeframe

-- `Timeframe::as_str`
unfoldable pub timeframe_text : Timeframe → Text
timeframe_text day = bytes "day"

pub record Bar (P T : Type 0) : Type 0 where
  pub symbol : Symbol
  pub timeframe : Timeframe
  pub timestamp : T
  pub open_price : P
  pub high : P
  pub low : P
  pub close : P
  pub volume : ℤ
