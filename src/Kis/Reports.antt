-- ===== src/Kis/Reports.antt =====
-- rust/lossfunction/src/kis/rest.rs: execution reports, and the queries as a whole.
pub mod Rows
use loss_function.Prelude.{
  ℕ, zero, suc, ◌*◌, Bool, true, false, not, ◌||◌, ◌&&◌, Option, none, some, List, [], ◌∷◌, ◌++◌,
  Result, ok, err, ◌>>=◌, ok_or, if◌then◌else◌, ◌==◌, unwrap_or, map_err,
}
use loss_function.Prelude.Int.{ℤ, pos, ltb_ℤ, leb_ℤ}
use loss_function.Prelude.Text.{Text, bytes, text_beq}
use loss_function.Prelude.Scan.{parse_i64}
use loss_function.Decimal.{Decimal}
use loss_function.Types.{OrderSide, buy, sell, OrderType, limit, market, Symbol, parse, Quote}
use loss_function.Broker.{ExecutionReport, Position}
use loss_function.Kis.{Json, index, text_at, Wire, Times, DecimalText}
use loss_function.Kis.Auth.{TokenResponse}
use loss_function.Kis.Rest.{ApiError, api_error, malformed, KisRestClient, request, says}
use loss_function.Kis.Accounts.{
  Page, balance_call, rows_of, number_or_zero, positions_of, next_page, quote_of, find_row, field,
  quote_call, row_call,
}

module _ {P : Type 0} ⦃d : Decimal P⦄ (n : DecimalText P) where
  -- an amount divided by the shares
  unfoldable pub price_of : ℤ → Text → Result ApiError (Option P)
  price_of filled amount = elim (n.parse_decimal amount) [
    | none ↦ err (api_error malformed (bytes "ccld row bad tot_ccld_amt: " ++ amount))
    | some total ↦ ok (some (d.div total (d.of_int filled)))
  ]

module _ {P J : Type 0} ⦃j : Json J⦄ ⦃d : Decimal P⦄ (n : DecimalText P) where
  -- the average price, if any shares are filled
  unfoldable pub average_of : ℤ → J → Result ApiError (Option P)
  average_of filled row =
      if ltb_ℤ (pos 0) filled
      then field (bytes "tot_ccld_amt") row >>= price_of n filled
      else ok none

  -- `execution_report_from_row`; `now` is the clock's reading
  unfoldable pub execution_report_from_row :
      {T : Type 0} → Text → Text → J → T → Result ApiError (ExecutionReport P T)
  execution_report_from_row broker_order_id client_order_id row now = do
    code ← field (bytes "pdno") row
    symbol ← map_err (λ x. api_error malformed (bytes "ccld row bad pdno")) (parse code)
    ordered ← field (bytes "ord_qty") row
    order_quantity ← ok_or (parse_i64 ordered) (api_error malformed (bytes "ccld row bad ord_qty"))
    average ← average_of (number_or_zero (text_at (bytes "tot_ccld_qty") row)) row
    side ← field (bytes "sll_buy_dvsn_cd") row
    ok (record {
      broker_order_id = broker_order_id;
      client_order_id = client_order_id;
      symbol = symbol;
      side = if text_beq side (bytes "02") then buy else sell;
      order_type = if says (text_at (bytes "ord_dvsn_cd") row) (bytes "00") then limit else market;
      order_quantity = order_quantity;
      filled_quantity = number_or_zero (text_at (bytes "tot_ccld_qty") row);
      average_fill_price = average;
      is_open =
          not (says (text_at (bytes "cncl_yn") row) (bytes "Y"))
          && ltb_ℤ (number_or_zero (text_at (bytes "tot_ccld_qty") row)) order_quantity;
      timestamp = now;
    })

module _ {T H J : Type 0} ⦃j : Json J⦄ (t : Times T) (decode : J → Result Text TokenResponse)
    (w : Wire H J) where
  -- the loop over the pages, at most `fuel` of them; the source takes 20
  unfoldable pub fetch_pages :
      ℕ → Page → List J → KisRestClient T H → H → Result ApiError (List J) × (KisRestClient T H × H)
  fetch_pages zero p rows c h = (ok rows, (c, h))
  fetch_pages (suc fuel) p rows c h =
      let (reply, (c', h')) = request t decode w c h (balance_call c p) in
      elim reply [
        | err e ↦ (err e, (c', h'))
        | ok r ↦
            let rows' = rows ++ rows_of (bytes "output1") (r.0) in
            elim (next_page r) [
              | none ↦ (ok rows', (c', h'))
              | some p' ↦ fetch_pages fuel p' rows' c' h'
            ]
      ]

  -- `fetch_order_row`; `utc_now` is the system's clock, and the day is that of Korea
  unfoldable pub fetch_order_row :
      (H → T) → KisRestClient T H → H → Text → Result ApiError J × (KisRestClient T H × H)
  fetch_order_row utc_now c h broker_order_id =
      let today = t.format (t.ahead (utc_now h) (9 * 3600)) (bytes "%Y%m%d") in
      let (reply, s) = request t decode w c h (row_call c broker_order_id today) in
      (reply >>= (λ r. find_row broker_order_id (rows_of (bytes "output1") (r.0))), s)

module _ {P T H J : Type 0} ⦃j : Json J⦄ ⦃d : Decimal P⦄ (n : DecimalText P) (t : Times T)
    (decode : J → Result Text TokenResponse) (w : Wire H J) where
  -- `fetch_positions`
  unfoldable pub fetch_positions :
      KisRestClient T H → H → Result ApiError (List (Position P)) × (KisRestClient T H × H)
  fetch_positions c h =
      let (rows, s) =
        fetch_pages t decode w 20 (record { fk = []; nk = []; tr_cont = none }) [] c h in
      (rows >>= positions_of n, s)

module _ {P T H J : Type 0} ⦃j : Json J⦄ (n : DecimalText P) (t : Times T)
    (decode : J → Result Text TokenResponse) (w : Wire H J) where
  -- `fetch_quote`, stamped by the system's clock after the reply
  unfoldable pub fetch_quote :
      (H → T)
      → KisRestClient T H
      → H
      → Symbol
      → Result ApiError (Quote P T) × (KisRestClient T H × H)
  fetch_quote utc_now c h s =
      let (reply, (c', h')) = request t decode w c h (quote_call s) in
      (reply >>= quote_of n s (utc_now h'), (c', h'))
