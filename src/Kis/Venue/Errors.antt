-- ===== src/Kis/Venue/Errors.antt =====
-- What the gateway makes of the venue's answers.
use loss_function.Prelude.{
  ◌≡◌, refl, sym, ok-injective, ap, ◌∙◌, some, [], Result, ok, err, map_err, arith, unwrap_or,
}
use loss_function.Prelude.Text.{Text, bytes, text_eq}
use loss_function.Prelude.Maps.{lookup, insert, lookup-insert_self}
use loss_function.Decimal.{Decimal}
use loss_function.Types.{OrderType, limit, market}
use loss_function.Domain.{OrderStatus, submitted, unknown}
use loss_function.Domain.Order.{Order}
use loss_function.Broker.{OrderAck, OrderRequest}
use loss_function.Kis.{Json, text_at, Wire, Times, DecimalText}
use loss_function.Kis.Auth.{TokenResponse}
use loss_function.Kis.Rest.{ApiError, api_reject, broker_error_of, ord_dvsn}
use loss_function.Kis.Orders.{submit_cash_order, cancel_cash_order}
use loss_function.Kis.Venue.{
  KisBroker, dvsn_of, after_request, remember, submit_order, cancel_order,
}

-- The status that an error, and an answer, of the client calls for.
abbrev pub meant_error : ApiError → OrderStatus
meant_error e = elim e.kind [ api_reject ↦ OrderStatus.rejected | _ ↦ unknown ]

abbrev pub meant : {A : Type 0} → Result ApiError A → OrderStatus
meant (ok a) = submitted
meant (err e) = meant_error e

dvsn_same : (type : OrderType) → dvsn_of type ≡ ord_dvsn type
unfolding dvsn_of ord_dvsn
dvsn_same limit = refl
dvsn_same market = refl

remembered :
    {T H J : Type 0} ⦃j : Json J⦄ (type : OrderType) (reply : Result ApiError (OrderAck × J))
    (b : KisBroker T H) (ack : OrderAck)
    → (remember type reply b).0 ≡ ok ack
    → (orgno : Text) × (lookup ack.broker_order_id (remember type reply b).1.order_context
        ≡ some (orgno, ord_dvsn type))
unfolding remember
remembered type (err e) b ack h = absurd (ground arith)
remembered type (ok (given, output)) b ack h =
    let same : given ≡ ack = ok-injective h in
    let orgno = unwrap_or (text_at (bytes "KRX_FWDG_ORD_ORGNO") output) [] in
    let m = insert given.broker_order_id (orgno, dvsn_of type) b.order_context in
    (
      orgno,
      ap (λ (x : OrderAck). lookup x.broker_order_id m) (sym same)
          ∙ (lookup-insert_self given.broker_order_id (orgno, dvsn_of type) b.order_context
              ∙ ap (λ (c : Text). some (orgno, c)) (dvsn_same type)),
    )

module _ {P T H J : Type 0} ⦃j : Json J⦄ ⦃d : Decimal P⦄ (n : DecimalText P) (t : Times T)
    (decode : J → Result Text TokenResponse) (w : Wire H J) (utc_now : H → T) where
  -- An order that KIS acknowledged can be cancelled afterwards: the broker has its context, and asks
  -- the venue to cancel it with the code of the order's type.
  pub cancellable :
      (b : KisBroker T H) (o : OrderRequest P) (ack : OrderAck)
      → (submit_order n t decode w utc_now b o).0 ≡ ok ack
      → let b' = (submit_order n t decode w utc_now b o).1 in
        (orgno : Text) × (cancel_order t decode w b' ack.broker_order_id ≡ (
          let (reply, s) =
            cancel_cash_order t decode w b'.rest b'.outside ack.broker_order_id orgno
              (ord_dvsn o.order_type) in
          (map_err broker_error_of reply, after_request b' s)))
  unfolding submit_order cancel_order
  cancellable b o ack h =
      let (reply, s) = submit_cash_order n t decode w b.rest b.outside o in
      let (orgno, found) = remembered o.order_type reply (after_request b s) ack h in
      (orgno, ground (arith, found))
