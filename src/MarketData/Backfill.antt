-- ===== src/MarketData/Backfill.antt =====
-- rust/lossfunction/src/marketdata/mod.rs: sources of bars, and the backfill of the stored candles.
-- `E` is the storage's error; a source and a repository pass the state of the outside world on.
pub mod Outcomes
use loss_function.Prelude.{
  ℕ, Bool, true, false, Option, none, some, List, [], ◌∷◌, Result, ok, err, map_err,
}
use loss_function.Prelude.Text.{Text}
use loss_function.Types.{Symbol}
use loss_function.MarketData.{Bar}

-- `Storage` is `stored`.
pub data MarketDataError (E : Type 0) : Type 0 where
  source : Text → MarketDataError E
  stored : E → MarketDataError E

-- `trait MarketDataSource`
pub record MarketDataSource (P T E S : Type 0) : Type 0 where
  pub daily_bars : S → Symbol → T → T → Result (MarketDataError E) (List (Bar P T)) × S

-- of the storage's `Repository`, what the backfill calls
pub record CandleStore (P T E S : Type 0) : Type 0 where
  pub upsert_candles : S → List (Bar P T) → Result E ℕ × S

module _ {P T E S : Type 0} (market : MarketDataSource P T E S) (repository : CandleStore P T E S)
    (from to : T) where
  -- what follows the source's answer
  unfoldable pub store :
      Result (MarketDataError E) (List (Bar P T)) × S → Result (MarketDataError E) ℕ × S
  store (err e, s) = (err e, s)
  store (ok bars, s) = let (r, s') = repository.upsert_candles s bars in (map_err stored r, s')

  -- `backfill_daily`
  unfoldable pub backfill_daily : List Symbol → S → List (Symbol × Result (MarketDataError E) ℕ) × S
  backfill_daily [] s = ([], s)
  backfill_daily (x ∷ xs) s =
      let (outcome, s') = store (market.daily_bars s x from to) in
      let (rest, s'') = backfill_daily xs s' in ((x, outcome) ∷ rest, s'')
