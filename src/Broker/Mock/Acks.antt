-- ===== src/Broker/Mock/Acks.antt =====
-- What the in-memory venue promises the gateway: an idempotent submission and a one-time cancel.
use loss_function.Prelude.{
  true, false, ◌≡◌, refl, sym, Option, none, some, ok, err, arith, inl, inr, Option-cases,
  Bool-cases,
}
use loss_function.Prelude.Text.{Text, text_eq}
use loss_function.Prelude.Int.{ℤ, ◌<ℤ◌}
use loss_function.Prelude.Maps.{Map, lookup, insert, lookup-insert_self}
use loss_function.Decimal.{Decimal}
use loss_function.Types.{sell, Symbol, symbol_eq}
use loss_function.Broker.{
  OrderRequest, OrderAck, ExecutionReport, not_open, unknown_order, unknown_symbol,
}
use loss_function.Broker.Mock.{
  Venue, mock_id, accept, submit_order, cancel_order, execution_report, report_of, fill_positions,
  sold, fills_now,
}

module _ {P : Type 0} where
  -- a position that does not cover a quantity: none, or one of fewer shares
  abbrev pub IsUncovered : ℤ → Option (ℤ × P) → Type 0
  IsUncovered quantity none = Unit
  IsUncovered quantity (some (held, average)) = held <ℤ quantity

module _ {P : Type 0} ⦃d : Decimal P⦄ where
  sold_uncovered :
      (positions : Map Symbol (ℤ × P)) (s : Symbol) (position : Option (ℤ × P)) (quantity : ℤ)
      → IsUncovered quantity position
      → sold positions s position quantity ≡ positions
  unfolding sold
  sold_uncovered positions s none quantity h = refl
  sold_uncovered positions s (some (held, average)) quantity h = ground arith

module _ {P T : Type 0} ⦃d : Decimal P⦄ where
  pub submit_known :
      (now : T) (v : Venue P T) (r : OrderRequest P) (ack : OrderAck)
      → lookup r.client_order_id v.acks ≡ some ack
      → submit_order now v r ≡ (ok ack, v)
  unfolding submit_order
  submit_known now v r ack h = ground arith

  pub submit_unpriced :
      (now : T) (v : Venue P T) (r : OrderRequest P)
      → lookup r.client_order_id v.acks ≡ none
      → lookup r.symbol v.prices ≡ none
      → submit_order now v r ≡ (err (unknown_symbol r.symbol.text), v)
  unfolding submit_order
  submit_unpriced now v r h k = ground arith

  pub submit_priced :
      (now : T) (v : Venue P T) (r : OrderRequest P) (price : P)
      → lookup r.client_order_id v.acks ≡ none
      → lookup r.symbol v.prices ≡ some price
      → submit_order now v r ≡ (ok (accept now v r price).0, (accept now v r price).1)
  unfolding submit_order
  submit_priced now v r price h k = ground arith

  acks-accept :
      (now : T) (v : Venue P T) (r : OrderRequest P) (price : P)
      → lookup r.client_order_id (accept now v r price).1.acks ≡ some (accept now v r price).0
  unfolding accept
  acks-accept now v r price = lookup-insert_self r.client_order_id _ v.acks

  reports-accept :
      (now : T) (v : Venue P T) (r : OrderRequest P) (price : P)
      → lookup (accept now v r price).0.broker_order_id (accept now v r price).1.reports
        ≡ some (report_of r price (accept now v r price).0.broker_order_id now)
  unfolding accept
  reports-accept now v r price = lookup-insert_self (mock_id v.next_broker_id) _ v.reports

  pub acks-submit_order :
      (now : T) (v : Venue P T) (r : OrderRequest P) {ack : OrderAck}
      → (submit_order now v r).0 ≡ ok ack
      → lookup r.client_order_id (submit_order now v r).1.acks ≡ some ack
  acks-submit_order now v r {ack} h = elim (Option-cases (lookup r.client_order_id v.acks)) [
    | inr (a, known) ↦
        let e = submit_known now v r a known in rw e (ground (arith, known, rw e at h))
    | inl fresh ↦ elim (Option-cases (lookup r.symbol v.prices)) [
      | inl unpriced ↦ cc (rw (submit_unpriced now v r fresh unpriced) at h)
      | inr (price, priced) ↦
          let e = submit_priced now v r price fresh priced in
          rw e (ground (arith, acks-accept now v r price, rw e at h))
    ]
  ]

  -- An order that the venue acknowledged, submitted again under the same client id at any later
  -- time and with any content, gets the same acknowledgement, and the venue is left as it was.
  pub submit_idempotent :
      (now later : T) (v : Venue P T) (r r' : OrderRequest P) {ack : OrderAck}
      → (submit_order now v r).0 ≡ ok ack
      → r'.client_order_id ≡ r.client_order_id
      → let v' = (submit_order now v r).1 in submit_order later v' r' ≡ (ok ack, v')
  submit_idempotent now later v r r' {ack} h k =
      submit_known later (submit_order now v r).1 r' ack (rw k (acks-submit_order now v r h))

  -- After a successful submission the venue has a report under the acknowledged id, which is open
  -- exactly if the order did not fill at the venue's price, and is filled for all its quantity or
  -- for none.
  pub submit-execution_report :
      (now : T) (v : Venue P T) (r : OrderRequest P) {ack : OrderAck}
      → lookup r.client_order_id v.acks ≡ none
      → (submit_order now v r).0 ≡ ok ack
      → (price : P) × (lookup r.symbol v.prices ≡ some price)
        × (execution_report (submit_order now v r).1 ack.broker_order_id
            ≡ ok (report_of r price ack.broker_order_id now))
  unfolding execution_report
  submit-execution_report now v r {ack} f h = elim (Option-cases (lookup r.symbol v.prices)) [
    | inl unpriced ↦ cc (rw (submit_unpriced now v r f unpriced) at h)
    | inr (price, priced) ↦
        let e = submit_priced now v r price f priced in
        let a : (accept now v r price).0 ≡ ack = ground (arith, rw e at h) in
        (price, priced, rw e (rw (sym a) (rw (reports-accept now v r price) refl)))
  ]

  held-accept :
      (now : T) (v : Venue P T) (r : OrderRequest P) (price : P)
      → r.side ≡ sell
      → IsUncovered r.quantity (lookup r.symbol v.held)
      → (accept now v r price).1.held ≡ v.held
  unfolding accept fill_positions
  held-accept now v r price s bare =
      ground (arith, s, sold_uncovered v.held r.symbol (lookup r.symbol v.held) r.quantity bare)

  filled-report_of :
      (r : OrderRequest P) (price : P) (id : Text) (now : T)
      → fills_now r price ≡ true
      → (report_of r price id now).filled_quantity ≡ r.quantity
  unfolding report_of
  filled-report_of r price id now f = rw f refl

  id-accept :
      (now : T) (v : Venue P T) (r : OrderRequest P) (price : P)
      → (accept now v r price).0.broker_order_id ≡ mock_id v.next_broker_id
  unfolding accept
  id-accept now v r price = refl

  -- A new sale of more shares than the venue holds of the symbol (of none, or of too few), at a
  -- price that fills, is reported as filled for all its quantity, and the positions stay as they were.
  pub phantom_sale :
      (now : T) (v : Venue P T) (r : OrderRequest P) (price : P)
      → lookup r.client_order_id v.acks ≡ none
      → lookup r.symbol v.prices ≡ some price
      → r.side ≡ sell
      → fills_now r price ≡ true
      → IsUncovered r.quantity (lookup r.symbol v.held)
      → let v' = (submit_order now v r).1 in
        (v'.held ≡ v.held)
        × (report : ExecutionReport P T) × (execution_report v' (mock_id v.next_broker_id)
            ≡ ok report)
        × (report.filled_quantity ≡ r.quantity)
  unfolding execution_report
  phantom_sale now v r price fresh priced s f bare =
      let id = mock_id v.next_broker_id in
      rw (submit_priced now v r price fresh priced) (
        held-accept now v r price s bare,
        report_of r price id now,
        rw (rw (id-accept now v r price) at (reports-accept now v r price)) refl,
        filled-report_of r price id now f,
      )

  cancel_missing :
      (now : T) (v : Venue P T) (id : Text)
      → lookup id v.reports ≡ none
      → cancel_order now v id ≡ (err (unknown_order id), v)
  unfolding cancel_order
  cancel_missing now v id h = ground arith

  cancel_closed :
      (now : T) (v : Venue P T) (id : Text) (report : ExecutionReport P T)
      → lookup id v.reports ≡ some report
      → report.is_open ≡ false
      → cancel_order now v id ≡ (err (not_open id), v)
  unfolding cancel_order
  cancel_closed now v id report h o = ground arith

  cancel_open :
      (now : T) (v : Venue P T) (id : Text) (report : ExecutionReport P T)
      → lookup id v.reports ≡ some report
      → report.is_open ≡ true
      → cancel_order now v id ≡ (
        ok tt,
        record v {
          reports = insert id (record report { is_open = false; timestamp = now }) v.reports;
        },
      )
  unfolding cancel_order
  cancel_open now v id report h o = ground arith

  -- After a cancel that succeeds, a second cancel of the same order is refused as not open, and
  -- leaves the venue as it was.
  pub cancel_once :
      (now later : T) (v : Venue P T) (id : Text)
      → (cancel_order now v id).0 ≡ ok tt
      → let v' = (cancel_order now v id).1 in cancel_order later v' id ≡ (err (not_open id), v')
  cancel_once now later v id h = elim (Option-cases (lookup id v.reports)) [
    | inl gone ↦ cc (rw (cancel_missing now v id gone) at h)
    | inr (report, found) ↦ elim (Bool-cases report.is_open) [
      | inl o ↦ rw (cancel_open now v id report found o) (
          cancel_closed later _ id (record report { is_open = false; timestamp = now })
            (lookup-insert_self id _ v.reports) refl)
      | inr o ↦ cc (rw (cancel_closed now v id report found o) at h)
    ]
  ]
