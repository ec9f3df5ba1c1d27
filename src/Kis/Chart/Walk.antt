-- ===== src/Kis/Chart/Walk.antt =====
-- rust/lossfunction/src/kis/chart.rs: the pages and the work stack of `daily_bars`.
pub mod Ends
use loss_function.Prelude.{
  ℕ, zero, suc, ◌+◌, ◌-◌, ◌*◌, ◌/◌, Bool, true, false, ◌&&◌, Option, none, some, List, [], ◌∷◌,
  ◌++◌, Result, ok, err, ◌>>=◌, map_err, if◌then◌else◌, length, ltb, leb, ok_or,
}
use loss_function.Prelude.Text.{Text, bytes}
use loss_function.Types.{Symbol}
use loss_function.MarketData.{Bar}
use loss_function.MarketData.Aggregator.{Calendar}
use loss_function.MarketData.Backfill.{MarketDataError, source}
use loss_function.Kis.{Json, Wire, Times}
use loss_function.Kis.Auth.{TokenResponse}
use loss_function.Kis.Rest.{KisRestClient, ApiError, request, api_error_text}
use loss_function.Kis.Chart.{
  ChartText, KisChartSource, Window, chart_call, sorted, dedup, retain, parse_rows,
}

-- the windows of at most 100 days, each pushed on the stack; one step for each day is enough fuel
unfoldable pub windows_from : ℕ → ℕ → ℕ → List Window → List Window
windows_from zero start stop stack = stack
windows_from (suc fuel) start stop stack = elim (leb start stop) [
  | false ↦ stack
  | true ↦
      let window_end = if leb (start + 99) stop then start + 99 else stop in
      windows_from fuel (window_end + 1) stop
        (record { start = start; stop = window_end; depth = 0 } ∷ stack)
]

unfoldable pub windows : ℕ → ℕ → List Window
unfolding windows_from
windows from to = windows_from (to + 1 - from) from to []

-- the middle of a window, and its halves
unfoldable pub middle : Window → ℕ
middle w = w.start + (w.stop - w.start) / 2

unfoldable pub lower : Window → Window
lower w = record { start = w.start; stop = middle w; depth = w.depth + 1 }

unfoldable pub upper : Window → Window
upper w = record { start = middle w + 1; stop = w.stop; depth = w.depth + 1 }

-- whether a page of some bars is fetched again in halves
unfoldable pub splits : ℕ → Window → Bool
splits bars w = leb 100 bars && (ltb w.depth 6 && ltb w.start w.stop)

module _ {P T E S : Type 0}
    (fetch : S → Window → Result (MarketDataError E) (List (Bar P T)) × S) where
  -- The work stack; `none` is a lack of fuel.
  unfoldable pub walk :
      ℕ
      → List Window
      → List (Bar P T)
      → S
      → Option (Result (MarketDataError E) (List (Bar P T))) × S
  walk fuel [] all s = (some (ok all), s)
  walk zero (w ∷ ws) all s = (none, s)
  walk (suc fuel) (w ∷ ws) all s =
      let (page, s') = fetch s w in
      elim page [
        | err e ↦ (some (err e), s')
        | ok bars ↦ elim (splits (length bars) w) [
          | true ↦ walk fuel (upper w ∷ lower w ∷ ws) all s'
          | false ↦ walk fuel ws (all ++ bars) s'
        ]
      ]

-- The fuel of a stack: its days twice, less one for each window.
abbrev pub weight : List Window → ℕ
weight [] = 0
weight (w ∷ ws) = 2 * (w.stop - w.start) + 1 + weight ws

module _ {P T E : Type 0} (before same : T → T → Bool) where
  -- the end of `daily_bars`
  unfoldable pub finish :
      T
      → T
      → Option (Result (MarketDataError E) (List (Bar P T)))
      → Option (Result (MarketDataError E) (List (Bar P T)))
  finish from to none = none
  finish from to (some (err e)) = some (err e)
  finish from to (some (ok all)) =
      some (ok (retain before from to (dedup same (sorted before all))))

module _ {P T E S : Type 0} (calendar : Calendar T ℕ) (before same : T → T → Bool)
    (fetch : S → Window → Result (MarketDataError E) (List (Bar P T)) × S) where
  -- `daily_bars`, by the fetch of one page
  unfoldable pub daily_bars : S → T → T → Option (Result (MarketDataError E) (List (Bar P T))) × S
  daily_bars s from to =
      let from_date = calendar.date_naive from in
      let end_date = calendar.date_naive to in
      let stack = windows from_date end_date in
      let (all, s') = walk fetch (weight stack) stack [] s in
      if ltb end_date from_date then (some (ok []), s) else (finish before same from to all, s')

module _ {P T H J E : Type 0} ⦃j : Json J⦄ (x : ChartText P) (calendar : Calendar T ℕ)
    (before same : T → T → Bool) (t : Times T) (decode : J → Result Text TokenResponse)
    (w : Wire H J) where
  -- the rows of a body
  unfoldable pub output_of : J → Result (MarketDataError E) (List J)
  output_of body =
      let missing : MarketDataError E = source (bytes "response missing output2 array") in
      elim (j.get (bytes "output2") body) [
        | none ↦ err missing
        | some rows ↦ ok_or (j.as_array rows) missing
      ]

  -- `fetch_page`; the state is the source and the outside world
  unfoldable pub fetch_page :
      Symbol
      → KisChartSource T H × H
      → Window
      → Result (MarketDataError E) (List (Bar P T)) × (KisChartSource T H × H)
  fetch_page s (c, h) window =
      let (reply, (rest, h')) = request t decode w c.rest h (chart_call x c.org_adj_prc s window) in
      (
        map_err (λ e. source (api_error_text e)) reply
            >>= (λ r. output_of (r.0))
            >>= parse_rows x calendar s
            >>= (λ bars. ok (dedup same (sorted before bars))),
        (record c { rest = rest }, h'),
      )
