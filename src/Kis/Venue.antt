-- ===== src/Kis/Venue.antt =====
-- rust/lossfunction/src/kis/broker.rs: the venue KIS as a broker.
pub mod Errors
use loss_function.Prelude.{
  ℕ, Option, none, some, List, [], ◌∷◌, ◌++◌, Result, ok, err, map_err, ◌>>=◌, unwrap_or,
}
use loss_function.Prelude.Text.{Text, bytes, text_eq}
use loss_function.Prelude.Maps.{Map, lookup, insert}
use loss_function.Decimal.{Decimal}
use loss_function.Types.{OrderType, limit, market, Symbol, Quote}
use loss_function.Broker.{
  OrderRequest, OrderAck, ExecutionReport, Position, BrokerError, internal, Broker,
}
use loss_function.Kis.{Json, text_at, Wire, Times, DecimalText}
use loss_function.Kis.Auth.{TokenResponse}
use loss_function.Kis.Rest.{ApiError, KisRestClient, broker_error_of}
use loss_function.Kis.Orders.{submit_cash_order, cancel_cash_order}
use loss_function.Kis.Reports.{
  execution_report_from_row, fetch_order_row, fetch_positions, fetch_quote,
}

-- The client, the contexts for cancels (`orgno`, `ord_dvsn`) by the venue's order id, and the outside
-- world.
pub record KisBroker (T H : Type 0) : Type 0 where
  pub rest : KisRestClient T H
  pub order_context : Map Text (Text × Text)
  pub outside : H

-- `KisBroker::new`
unfoldable pub new : {T H : Type 0} → KisRestClient T H → H → KisBroker T H
new rest h = record { rest = rest; order_context = []; outside = h }

-- the code of an order's type
unfoldable pub dvsn_of : OrderType → Text
dvsn_of limit = bytes "00"
dvsn_of market = bytes "01"

module _ {T H : Type 0} where
  -- the broker after a request
  unfoldable pub after_request : KisBroker T H → KisRestClient T H × H → KisBroker T H
  after_request b (rest, h) = record b { rest = rest; outside = h }

  -- an acknowledged order leaves its context
  unfoldable pub remember :
      {J : Type 0} ⦃j : Json J⦄
      → OrderType
      → Result ApiError (OrderAck × J)
      → KisBroker T H
      → Result BrokerError OrderAck × KisBroker T H
  remember type (err e) b = (err (broker_error_of e), b)
  remember type (ok (ack, output)) b = (
    ok ack,
    record b {
      order_context =
          insert ack.broker_order_id
            (unwrap_or (text_at (bytes "KRX_FWDG_ORD_ORGNO") output) [], dvsn_of type)
            b.order_context;
    },
  )

module _ {P T H J : Type 0} ⦃j : Json J⦄ ⦃d : Decimal P⦄ (n : DecimalText P) (t : Times T)
    (decode : J → Result Text TokenResponse) (w : Wire H J) (utc_now : H → T) where
  -- `submit_order`
  unfoldable pub submit_order :
      KisBroker T H → OrderRequest P → Result BrokerError OrderAck × KisBroker T H
  submit_order b o =
      let (reply, s) = submit_cash_order n t decode w b.rest b.outside o in
      remember o.order_type reply (after_request b s)

  -- `execution_report`
  unfoldable pub execution_report :
      KisBroker T H → Text → Result BrokerError (ExecutionReport P T) × KisBroker T H
  execution_report b id =
      let (row, s) = fetch_order_row t decode w utc_now b.rest b.outside id in
      let b' = after_request b s in
      (
        map_err broker_error_of
            (row >>= (λ r. execution_report_from_row n id [] r (utc_now b'.outside))),
        b',
      )

  -- `positions`
  unfoldable pub positions : KisBroker T H → Result BrokerError (List (Position P)) × KisBroker T H
  positions b =
      let (ps, s) = fetch_positions n t decode w b.rest b.outside in
      (map_err broker_error_of ps, after_request b s)

  -- `quote`
  unfoldable pub quote : KisBroker T H → Symbol → Result BrokerError (Quote P T) × KisBroker T H
  quote b s =
      let (q, s') = fetch_quote n t decode w utc_now b.rest b.outside s in
      (map_err broker_error_of q, after_request b s')

module _ {T H J : Type 0} ⦃j : Json J⦄ (t : Times T) (decode : J → Result Text TokenResponse)
    (w : Wire H J) where
  -- `cancel_order`: only an order that this broker submitted has a context
  unfoldable pub cancel_order : KisBroker T H → Text → Result BrokerError (Unit {0}) × KisBroker T H
  cancel_order b id = elim (lookup id b.order_context) [
    | none ↦ (
      err (
          internal (
            bytes "no in-session context for order "
            ++ (id ++ bytes "; restart recovery must reconcile before cancelling"))),
      b,
    )
    | some (orgno, dvsn) ↦
        let (reply, s) = cancel_cash_order t decode w b.rest b.outside id orgno dvsn in
        (map_err broker_error_of reply, after_request b s)
  ]

-- `impl Broker for KisBroker`
unfoldable pub kis_broker :
    {P T H J : Type 0} ⦃j : Json J⦄ ⦃d : Decimal P⦄
    → DecimalText P
    → Times T
    → (J → Result Text TokenResponse)
    → Wire H J
    → (H → T)
    → Broker P T (KisBroker T H)
kis_broker n t decode w utc_now = record {
  submit_order = submit_order n t decode w utc_now;
  cancel_order = cancel_order t decode w;
  execution_report = execution_report n t decode w utc_now;
  positions = positions n t decode w utc_now;
  quote = quote n t decode w utc_now;
}
