-- ===== src/Kis/Chart.antt =====
-- rust/lossfunction/src/kis/chart.rs: daily bars from the chart endpoint. A date is the number of its
-- day, counted from an early one; chrono's bounds on dates are left out.
pub mod Walk
pub mod Windows
use loss_function.Prelude.{
  ℕ, zero, suc, ◌+◌, ◌-◌, ◌*◌, ◌/◌, Bool, true, false, ◌&&◌, Option, none, some, List, [], ◌∷◌,
  ◌++◌, Result, ok, err, ◌>>=◌, map_err, if◌then◌else◌, length, ltb, leb, ◌==◌, ok_or,
}
use loss_function.Prelude.Int.{ℤ}
use loss_function.Prelude.Text.{Text, bytes}
use loss_function.Prelude.Scan.{parse_i64}
use loss_function.Types.{Symbol, as_str}
use loss_function.MarketData.{Bar, day}
use loss_function.MarketData.Aggregator.{Calendar}
use loss_function.MarketData.Backfill.{MarketDataError, source}
use loss_function.Kis.{Json, Wire, Times, get}
use loss_function.Kis.Auth.{TokenResponse}
use loss_function.Kis.Rest.{KisRestClient, Call, request, api_error_text}

-- What the source reads and writes as text: `Decimal::from_str` and the dates of the format "%Y%m%d",
-- with the texts of their errors, and the text of an error of `parse::<i64>()`.
pub record ChartText (P : Type 0) : Type 0 where
  pub decimal : Text → Result Text P
  pub date : Text → Result Text ℕ
  pub show_date : ℕ → Text
  pub int_error : Text → Text

-- The client, and "0" for adjusted prices.
pub record KisChartSource (T H : Type 0) : Type 0 where
  pub rest : KisRestClient T H
  pub org_adj_prc : Text

-- `KisChartSource::new`
unfoldable pub new : {T H : Type 0} → KisRestClient T H → KisChartSource T H
new rest = record { rest = rest; org_adj_prc = bytes "0" }

-- A window of dates, both included, and how often it was split.
pub record Window : Type 0 where
  pub start : ℕ
  pub stop : ℕ
  pub depth : ℕ

-- the call for a window
unfoldable pub chart_call : {P : Type 0} → ChartText P → Text → Symbol → Window → Call
chart_call x org_adj_prc s w = record {
  method = get;
  path = bytes "/uapi/domestic-stock/v1/quotations/inquire-daily-itemchartprice";
  tr_id = bytes "FHKST03010100";
  body = none;
  query = some (
      (bytes "FID_COND_MRKT_DIV_CODE", bytes "J")
      ∷ (bytes "FID_INPUT_ISCD", as_str s)
      ∷ (bytes "FID_INPUT_DATE_1", x.show_date w.start)
      ∷ (bytes "FID_INPUT_DATE_2", x.show_date w.stop)
      ∷ (bytes "FID_PERIOD_DIV_CODE", bytes "D")
      ∷ (bytes "FID_ORG_ADJ_PRC", org_adj_prc)
      ∷ []);
  tr_cont = none;
}

module _ {P T : Type 0} where
  -- `sort_by_key` on instants, stable
  unfoldable pub slot : (T → T → Bool) → Bar P T → List (Bar P T) → List (Bar P T)
  slot before b [] = b ∷ []
  slot before b (c ∷ cs) =
      let rest = slot before b cs in if before c.timestamp b.timestamp then c ∷ rest else b ∷ c ∷ cs

  unfoldable pub sorted : (T → T → Bool) → List (Bar P T) → List (Bar P T)
  sorted before [] = []
  sorted before (b ∷ bs) = slot before b (sorted before bs)

  -- `dedup_by` on equal instants: of neighbours the first stays
  unfoldable pub dedup_after : (T → T → Bool) → Bar P T → List (Bar P T) → List (Bar P T)
  dedup_after same b [] = []
  dedup_after same b (c ∷ cs) =
      let kept = dedup_after same b cs in
      let next = dedup_after same c cs in if same c.timestamp b.timestamp then kept else c ∷ next

  unfoldable pub dedup : (T → T → Bool) → List (Bar P T) → List (Bar P T)
  dedup same [] = []
  dedup same (b ∷ bs) = b ∷ dedup_after same b bs

  -- `retain` of the bars from an instant to another
  unfoldable pub retain : (T → T → Bool) → T → T → List (Bar P T) → List (Bar P T)
  retain before from to [] = []
  retain before from to (b ∷ bs) =
      let rest = retain before from to bs in
      if before b.timestamp from then rest else if before to b.timestamp then rest else b ∷ rest

module _ {P T E J : Type 0} ⦃j : Json J⦄ (x : ChartText P) (calendar : Calendar T ℕ) where
  -- the closures `field` and `price` of `parse_row`
  unfoldable pub field : J → Text → Result (MarketDataError E) Text
  field row name =
      let missing : MarketDataError E =
        source (bytes "bar row missing field \"" ++ (name ++ (bytes "\": " ++ j.show row))) in
      elim (j.get name row) [
        | none ↦ err missing
        | some value ↦ elim (j.as_str value) [
          | none ↦ err missing
          | some t ↦ if length t == 0 then err missing else ok t
        ]
      ]

  unfoldable pub price : J → Text → Result (MarketDataError E) P
  price row name = field row name >>= (λ t.
      map_err (λ e. source (bytes "bad price in " ++ (name ++ (bytes ": " ++ e)))) (x.decimal t))

  -- `parse_row`
  unfoldable pub parse_row : Symbol → J → Result (MarketDataError E) (Bar P T)
  parse_row s row = do
    raw ← field row (bytes "stck_bsop_date")
    date ← map_err (λ e. source (bytes "bad stck_bsop_date: " ++ e)) (x.date raw)
    open_price ← price row (bytes "stck_oprc")
    high ← price row (bytes "stck_hgpr")
    low ← price row (bytes "stck_lwpr")
    close ← price row (bytes "stck_clpr")
    amount ← field row (bytes "acml_vol")
    volume ← ok_or (parse_i64 amount) (source (bytes "bad acml_vol: " ++ x.int_error amount))
    ok (record {
      symbol = s;
      timeframe = day;
      timestamp = calendar.at_time date 6 30 0;
      open_price = open_price;
      high = high;
      low = low;
      close = close;
      volume = volume;
    })

  -- the rows up to the first that cannot be read
  unfoldable pub parse_rows : Symbol → List J → Result (MarketDataError E) (List (Bar P T))
  parse_rows s [] = ok []
  parse_rows s (row ∷ rows) = do b ← parse_row s row; bs ← parse_rows s rows; ok (b ∷ bs)
