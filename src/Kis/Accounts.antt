-- ===== src/Kis/Accounts.antt =====
-- rust/lossfunction/src/kis/rest.rs: positions, quotes and execution reports.
use loss_function.Prelude.{
  ◌||◌, Option, none, some, List, [], ◌∷◌, ◌++◌, Result, ok, err, ◌>>=◌, ok_or, if◌then◌else◌,
  unwrap_or,
}
use loss_function.Prelude.Int.{ℤ, pos, leb_ℤ}
use loss_function.Prelude.Text.{Text, bytes, text_beq}
use loss_function.Prelude.Scan.{parse_i64}
use loss_function.Decimal.{Decimal}
use loss_function.Types.{Symbol, as_str, parse, Quote}
use loss_function.Broker.{Position}
use loss_function.Kis.{Json, index, text_at, DecimalText, get}
use loss_function.Kis.Rest.{ApiError, api_error, malformed, KisRestClient, Call, says}

unfoldable pub balance_tr_id : Text → Text
balance_tr_id environment =
    if text_beq environment (bytes "real") then bytes "TTTC8434R" else bytes "VTTC8434R"

unfoldable pub row_tr_id : Text → Text
row_tr_id environment =
    if text_beq environment (bytes "real") then bytes "TTTC0081R" else bytes "VTTC0081R"

-- Where the next page of positions begins.
pub record Page : Type 0 where
  pub fk : Text
  pub nk : Text
  pub tr_cont : Option Text

-- the call for one page
unfoldable pub balance_call : {T H : Type 0} → KisRestClient T H → Page → Call
balance_call c p = record {
  method = get;
  path = bytes "/uapi/domestic-stock/v1/trading/inquire-balance";
  tr_id = balance_tr_id c.environment;
  body = none;
  query = some (
      (bytes "CANO", c.cano)
      ∷ (bytes "ACNT_PRDT_CD", c.prdt)
      ∷ (bytes "AFHR_FLPR_YN", bytes "N")
      ∷ (bytes "OFL_YN", [])
      ∷ (bytes "INQR_DVSN", bytes "02")
      ∷ (bytes "UNPR_DVSN", bytes "01")
      ∷ (bytes "FUND_STTL_ICLD_YN", bytes "N")
      ∷ (bytes "FNCG_AMT_AUTO_RDPT_YN", bytes "N")
      ∷ (bytes "PRCS_DVSN", bytes "00")
      ∷ (bytes "CTX_AREA_FK100", p.fk)
      ∷ (bytes "CTX_AREA_NK100", p.nk)
      ∷ []);
  tr_cont = p.tr_cont;
}

-- the rows of a page
unfoldable pub rows_of : {J : Type 0} ⦃j : Json J⦄ → Text → J → List J
rows_of ⦃j⦄ name body = unwrap_or (j.as_array (index name body)) []

-- `parse().ok()` and `unwrap_or(0)` of an optional text
unfoldable pub number_or_zero : Option Text → ℤ
number_or_zero none = pos 0
number_or_zero (some t) = unwrap_or (parse_i64 t) (pos 0)

unfoldable pub decimal_or_zero : {P : Type 0} ⦃d : Decimal P⦄ → DecimalText P → Option Text → P
decimal_or_zero ⦃d⦄ n none = d.zero
decimal_or_zero ⦃d⦄ n (some t) = unwrap_or (n.parse_decimal t) d.zero

module _ {P J : Type 0} ⦃j : Json J⦄ ⦃d : Decimal P⦄ (n : DecimalText P) where
  -- the positions of the rows: those without shares are passed over
  unfoldable pub positions_of : List J → Result ApiError (List (Position P))
  positions_of [] = ok []
  positions_of (row ∷ rows) =
      let rest = positions_of rows in
      let quantity = number_or_zero (text_at (bytes "hldg_qty") row) in
      let code = unwrap_or (text_at (bytes "pdno") row) [] in
      if leb_ℤ quantity (pos 0) then rest else elim (parse code) [
        | err x ↦ err (api_error malformed (bytes "balance row bad symbol " ++ code))
        | ok symbol ↦ do
          others ← rest
          ok (
              record {
                symbol = symbol;
                quantity = quantity;
                average_price = decimal_or_zero n (text_at (bytes "pchs_avg_pric") row);
              }
              ∷ others)
      ]

module _ {J : Type 0} ⦃j : Json J⦄ where
  -- the page after a reply, if the header says that there is one
  unfoldable pub next_page : J × Option Text → Option Page
  next_page (body, cont) =
      if says cont (bytes "M") || says cont (bytes "F")
      then some (record {
        fk = unwrap_or (text_at (bytes "ctx_area_fk100") body) [];
        nk = unwrap_or (text_at (bytes "ctx_area_nk100") body) [];
        tr_cont = some (bytes "N");
      })
      else none

  -- a price as a text that is there and is a number
  unfoldable pub quote_of :
      {P T : Type 0} → DecimalText P → Symbol → T → J × Option Text → Result ApiError (Quote P T)
  quote_of n s now (payload, cont) =
      elim (text_at (bytes "stck_prpr") (index (bytes "output") payload)) [
        | none ↦ err (api_error malformed (bytes "inquire-price missing stck_prpr"))
        | some raw ↦ elim (n.parse_decimal raw) [
          | none ↦ err (api_error malformed (bytes "stck_prpr not a number: " ++ raw))
          | some price ↦ ok (record { symbol = s; last_price = price; timestamp = now })
        ]
      ]

  -- the first row of the order
  unfoldable pub find_row : Text → List J → Result ApiError J
  find_row id [] =
      err (api_error malformed (bytes "order " ++ (id ++ bytes " not found in ccld response")))
  find_row id (row ∷ rows) =
      let rest = find_row id rows in if says (text_at (bytes "odno") row) id then ok row else rest

  -- the closure `field` of `execution_report_from_row`
  unfoldable pub field : Text → J → Result ApiError Text
  field name row =
      ok_or (text_at name row) (api_error malformed (bytes "ccld row missing " ++ name))

-- the call of `fetch_quote`
unfoldable pub quote_call : Symbol → Call
quote_call s = record {
  method = get;
  path = bytes "/uapi/domestic-stock/v1/quotations/inquire-price";
  tr_id = bytes "FHKST01010100";
  body = none;
  query =
      some ((bytes "FID_COND_MRKT_DIV_CODE", bytes "J") ∷ (bytes "FID_INPUT_ISCD", as_str s) ∷ []);
  tr_cont = none;
}

-- the call of `fetch_order_row`, on a date
unfoldable pub row_call : {T H : Type 0} → KisRestClient T H → Text → Text → Call
row_call c broker_order_id today = record {
  method = get;
  path = bytes "/uapi/domestic-stock/v1/trading/inquire-daily-ccld";
  tr_id = row_tr_id c.environment;
  body = none;
  query = some (
      (bytes "CANO", c.cano)
      ∷ (bytes "ACNT_PRDT_CD", c.prdt)
      ∷ (bytes "INQR_STRT_DT", today)
      ∷ (bytes "INQR_END_DT", today)
      ∷ (bytes "SLL_BUY_DVSN_CD", bytes "00")
      ∷ (bytes "PDNO", [])
      ∷ (bytes "CCLD_DVSN", bytes "00")
      ∷ (bytes "INQR_DVSN", bytes "01")
      ∷ (bytes "INQR_DVSN_3", bytes "00")
      ∷ (bytes "ORD_GNO_BRNO", [])
      ∷ (bytes "ODNO", broker_order_id)
      ∷ (bytes "INQR_DVSN_1", [])
      ∷ (bytes "CTX_AREA_FK100", [])
      ∷ (bytes "CTX_AREA_NK100", [])
      ∷ (bytes "EXCG_ID_DVSN_CD", bytes "KRX")
      ∷ []);
  tr_cont = none;
}
