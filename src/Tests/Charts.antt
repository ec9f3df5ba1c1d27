-- ===== src/Tests/Charts.antt =====
-- The daily chart and the backfill at concrete windows. An instant is a number of hours, and a date is
-- the number of its day.
use loss_function.Prelude.{
  ℕ, zero, suc, ◌+◌, ◌*◌, ◌==◌, true, ◌≡◌, List, [], ◌∷◌, ◌++◌, map, length, ltb, is_some, All,
  Result, ok, err, if◌then◌else◌,
}
use loss_function.Prelude.Int.{ℤ, pos}
use loss_function.Prelude.Text.{text_beq}
use loss_function.MarketData.{Bar, day}
use loss_function.MarketData.Backfill.{
  MarketDataError, MarketDataSource, CandleStore, source, backfill_daily,
}
use loss_function.MarketData.Backfill.Outcomes.{backfill_outcomes}
use loss_function.Kis.Chart.{Window}
use loss_function.Kis.Chart.Walk.{windows, daily_bars}
use loss_function.Kis.Chart.Walk.Ends.{daily_bars_ends}
use loss_function.Kis.Chart.Windows.{times_in, IsShort, windows_once}
use loss_function.Tests.Samples.{samsung, hynix, whole}
use loss_function.Tests.Ticks.{hours}

abbrev bar_at : ℕ → Bar ℤ ℕ
bar_at t = record {
  symbol = samsung;
  timeframe = day;
  timestamp = t;
  open_price = pos 500;
  high = pos 510;
  low = pos 490;
  close = pos 505;
  volume = pos 7;
}

abbrev copies : ℕ → ℕ → List (Bar ℤ ℕ)
copies zero d = []
copies (suc n) d = bar_at (d * 24 + n) ∷ copies n d

-- A page is full where it has more than one day; the state counts the pages.
abbrev full_pages : ℕ → Window → Result (MarketDataError ℕ) (List (Bar ℤ ℕ)) × ℕ
full_pages pages w = (ok (copies (if w.start == w.stop then 1 else 100) w.start), pages + 1)

daily_bars_ends_example : is_some (daily_bars hours ltb ◌==◌ full_pages 0 240 300).0 ≡ true
daily_bars_ends_example = daily_bars_ends hours ltb ◌==◌ full_pages 0 240 300

windows_once_example : (times_in 150 (windows 10 260) ≡ 1) × All IsShort (windows 10 260)
windows_once_example = windows_once 10 260 150

-- A source that fails for one symbol, and a store that counts the candles.
abbrev market : MarketDataSource ℤ ℕ ℕ ℕ
market = record {
  daily_bars = λ n s from to.
      (if text_beq s.text hynix.text then err (source []) else ok (bar_at 30 ∷ bar_at 54 ∷ []), n);
}

abbrev candles : CandleStore ℤ ℕ ℕ ℕ
candles = record { upsert_candles = λ n bars. (ok (length bars), n + length bars) }

backfill_outcomes_example :
    let (all, end) = backfill_daily market candles 0 60 ((hynix ∷ []) ++ (samsung ∷ [])) 0 in
    let (first, s') = backfill_daily market candles 0 60 (hynix ∷ []) 0 in
    let (rest, s'') = backfill_daily market candles 0 60 (samsung ∷ []) s' in
    (map (λ o. o.0) all ≡ hynix ∷ samsung ∷ []) × (all ≡ first ++ rest) × (end ≡ s'')
backfill_outcomes_example = backfill_outcomes market candles 0 60 (hynix ∷ []) (samsung ∷ []) 0
