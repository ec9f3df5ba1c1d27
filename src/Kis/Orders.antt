-- ===== src/Kis/Orders.antt =====
-- rust/lossfunction/src/kis/rest.rs: submitting and cancelling orders.
use loss_function.Prelude.{
  Option, none, some, [], ◌∷◌, Result, ok, err, ◌>>=◌, if◌then◌else◌, ◌==◌, length,
}
use loss_function.Prelude.Text.{Text, bytes, text_beq, show_int}
use loss_function.Types.{OrderSide, buy, sell, as_str}
use loss_function.Broker.{OrderRequest, OrderAck}
use loss_function.Kis.{Json, index, text_at, Wire, Times, DecimalText, post}
use loss_function.Kis.Auth.{TokenResponse}
use loss_function.Kis.Rest.{ApiError, api_error, malformed, KisRestClient, ord_dvsn, Call, request}

-- the id of the operation, by environment and side
unfoldable pub order_tr_id : Text → OrderSide → Text
order_tr_id environment buy =
    if text_beq environment (bytes "real") then bytes "TTTC0012U" else bytes "VTTC0012U"
order_tr_id environment sell =
    if text_beq environment (bytes "real") then bytes "TTTC0011U" else bytes "VTTC0011U"

unfoldable pub cancel_tr_id : Text → Text
cancel_tr_id environment =
    if text_beq environment (bytes "real") then bytes "TTTC0013U" else bytes "VTTC0013U"

-- the price of the body: "0" where there is none
unfoldable pub price_text : {P : Type 0} → DecimalText P → Option P → Text
price_text n none = bytes "0"
price_text n (some price) = n.show_decimal price

-- the call of `submit_cash_order`
unfoldable pub order_call :
    {P T H : Type 0} → DecimalText P → KisRestClient T H → OrderRequest P → Call
order_call n c o = record {
  method = post;
  path = bytes "/uapi/domestic-stock/v1/trading/order-cash";
  tr_id = order_tr_id c.environment o.side;
  body = some (
      (bytes "CANO", c.cano)
      ∷ (bytes "ACNT_PRDT_CD", c.prdt)
      ∷ (bytes "PDNO", as_str o.symbol)
      ∷ (bytes "ORD_DVSN", ord_dvsn o.order_type)
      ∷ (bytes "ORD_QTY", show_int o.quantity)
      ∷ (bytes "ORD_UNPR", price_text n o.limit_price)
      ∷ (bytes "EXCG_ID_DVSN_CD", bytes "KRX")
      ∷ (bytes "SLL_TYPE", [])
      ∷ (bytes "CNDT_PRIC", [])
      ∷ []);
  query = none;
  tr_cont = none;
}

-- the call of `cancel_cash_order`
unfoldable pub cancel_call : {T H : Type 0} → KisRestClient T H → Text → Text → Text → Call
cancel_call c broker_order_id orgno dvsn = record {
  method = post;
  path = bytes "/uapi/domestic-stock/v1/trading/order-rvsecncl";
  tr_id = cancel_tr_id c.environment;
  body = some (
      (bytes "CANO", c.cano)
      ∷ (bytes "ACNT_PRDT_CD", c.prdt)
      ∷ (bytes "KRX_FWDG_ORD_ORGNO", orgno)
      ∷ (bytes "ORGN_ODNO", broker_order_id)
      ∷ (bytes "ORD_DVSN", dvsn)
      ∷ (bytes "RVSE_CNCL_DVSN_CD", bytes "02")
      ∷ (bytes "ORD_QTY", bytes "0")
      ∷ (bytes "ORD_UNPR", bytes "0")
      ∷ (bytes "QTY_ALL_ORD_YN", bytes "Y")
      ∷ (bytes "EXCG_ID_DVSN_CD", bytes "KRX")
      ∷ []);
  query = none;
  tr_cont = none;
}

module _ {J : Type 0} ⦃j : Json J⦄ where
  -- the acknowledgement of a response, with its `output`
  unfoldable pub ack_of : Text → J × Option Text → Result ApiError (OrderAck × J)
  ack_of client_order_id (payload, cont) =
      let output = index (bytes "output") payload in
      let missing = api_error malformed (bytes "order-cash response missing output.ODNO") in
      elim (text_at (bytes "ODNO") output) [
        | none ↦ err missing
        | some odno ↦
            if length odno == 0
            then err missing
            else ok (record { client_order_id = client_order_id; broker_order_id = odno }, output)
      ]

module _ {P T H J : Type 0} ⦃j : Json J⦄ (n : DecimalText P) (t : Times T)
    (decode : J → Result Text TokenResponse) (w : Wire H J) where
  -- `submit_cash_order`
  unfoldable pub submit_cash_order :
      KisRestClient T H
      → H
      → OrderRequest P
      → Result ApiError (OrderAck × J) × (KisRestClient T H × H)
  submit_cash_order c h o =
      let (reply, s) = request t decode w c h (order_call n c o) in
      (reply >>= ack_of o.client_order_id, s)

module _ {T H J : Type 0} ⦃j : Json J⦄ (t : Times T) (decode : J → Result Text TokenResponse)
    (w : Wire H J) where
  -- `cancel_cash_order`
  unfoldable pub cancel_cash_order :
      KisRestClient T H
      → H
      → Text
      → Text
      → Text
      → Result ApiError (Unit {0}) × (KisRestClient T H × H)
  cancel_cash_order c h broker_order_id orgno dvsn =
      let (reply, s) = request t decode w c h (cancel_call c broker_order_id orgno dvsn) in
      (reply >>= (λ r. ok tt), s)
