-- ===== src/Execution/Gateway.antt =====
-- rust/lossfunction/src/execution/gateway.rs: the path through which orders reach a venue, and the
-- reconciler. The locks are held for the length of one call, so a call sees and leaves one state.
pub mod Submission
pub mod Once
pub mod Reconciliation
pub mod Recovery
use loss_function.Prelude.{
  Bool, true, false, not, ◌&&◌, ◌||◌, Option, none, some, List, [], ◌∷◌, ◌++◌, Result, ok, err,
  map_err, is_some, if◌then◌else◌,
}
use loss_function.Prelude.Int.{ℤ, pos, ltb_ℤ, leb_ℤ}
use loss_function.Prelude.Text.{Text, text_eq, bytes, show_int}
use loss_function.Prelude.Maps.{Map, lookup, insert, contains}
use loss_function.Domain.{
  OrderStatus, pending, submitted, partially_filled, filled, cancelled, unknown,
}
use loss_function.Domain.Order.{Order}
use loss_function.Broker.{
  OrderRequest, OrderAck, ExecutionReport, BrokerError, rejected, unknown_order, error_text, Broker,
}
use loss_function.Execution.StateMachine.{
  StateMachine, TransitionError, unregistered, status, register, transition, mark_unknown,
  status_eq,
}

pub data SubmitError : Type 0 where
  duplicate : Text → SubmitError
  timeout : Text → SubmitError
  broker_refused : BrokerError → SubmitError
  machine_error : TransitionError → SubmitError

pub data ReconcileError : Type 0 where
  machine_failed : TransitionError → ReconcileError
  broker_failed : Text → ReconcileError

-- What a submission reads and writes: the gateway's ids, the caller's machine, the venue's state.
pub record World (T S : Type 0) : Type 0 where
  pub broker_ids : Map Text Text
  pub machine : StateMachine T
  pub venue : S

unfoldable pub request_of : {P : Type 0} → Order P → OrderRequest P
request_of o = record {
  client_order_id = o.client_order_id;
  symbol = o.symbol;
  side = o.side;
  order_type = o.order_type;
  quantity = o.quantity;
  limit_price = o.limit_price;
}

module _ {T S : Type 0} where
  -- `OrderGateway::broker_order_id`
  unfoldable pub broker_order_id : World T S → Text → Option Text
  broker_order_id w id = lookup id w.broker_ids

  -- what follows a call of the machine: its error ends the submission
  unfoldable pub after :
      {A : Type 0}
      → World T S
      → Result TransitionError OrderStatus × StateMachine T
      → (World T S → Result SubmitError A × World T S)
      → Result SubmitError A × World T S
  after w (ok s, m) k = k (record w { machine = m })
  after w (err e, m) k = (err (machine_error e), record w { machine = m })

  -- the `match` on the venue's answer
  unfoldable pub settle :
      World T S → Text → Result BrokerError OrderAck → T → Result SubmitError OrderAck × World T S
  settle w id (err (rejected m)) now =
      after w
        (transition w.machine id OrderStatus.rejected
          (bytes "broker rejected: " ++ error_text (rejected m)) now)
        λ w'. (err (broker_refused (rejected m)), w')
  settle w id (err e) now =
      after w (mark_unknown w.machine id (bytes "no definitive answer: " ++ error_text e) now)
        λ w'. (err (timeout (error_text e)), w')
  settle w id (ok ack) now =
      after w (transition w.machine id submitted (bytes "broker ack " ++ ack.broker_order_id) now)
        λ w'. (ok ack, record w' { broker_ids = insert id ack.broker_order_id w'.broker_ids })

module _ {P T S : Type 0} (broker : Broker P T S) where
  -- the part of `submit` after the duplicate check
  unfoldable pub submit_new : World T S → Order P → T → Result SubmitError OrderAck × World T S
  submit_new w o now =
      let id = o.client_order_id in
      let (r, m) = register w.machine id pending in
      elim r [
        | err e ↦ (err (machine_error e), record w { machine = m })
        | ok _ ↦
            let (answer, venue) = broker.submit_order w.venue (request_of o) in
            settle (record w { machine = m; venue = venue }) id answer now
      ]

  -- `OrderGateway::submit`
  unfoldable pub submit : World T S → Order P → T → Result SubmitError OrderAck × World T S
  submit w o now =
      let id = o.client_order_id in
      if contains id w.broker_ids || is_some (status w.machine id)
      then (err (duplicate id), w)
      else submit_new w o now

-- `target_status`
unfoldable pub target_status : {P T : Type 0} → ExecutionReport P T → OrderStatus
target_status r =
    if not r.is_open && leb_ℤ r.order_quantity r.filled_quantity
    then filled
    else if r.is_open
    then (if ltb_ℤ (pos 0) r.filled_quantity then partially_filled else submitted)
    else cancelled

-- The reason that a reconciliation records.
unfoldable pub report_text : {P T : Type 0} → ExecutionReport P T → Text
unfolding show_int
report_text r =
    bytes "reconciled: filled "
    ++ (show_int r.filled_quantity
        ++ (bytes "/"
            ++ (show_int r.order_quantity
                ++ (bytes " open=" ++ (if r.is_open then bytes "true" else bytes "false")))))

module _ {T : Type 0} where
  -- the `match` on the venue's report
  unfoldable pub resolve :
      {P : Type 0}
      → StateMachine T
      → Text
      → Result BrokerError (ExecutionReport P T)
      → T
      → Result ReconcileError OrderStatus × StateMachine T
  resolve m id (ok report) now =
      let (r, m') = transition m id (target_status report) (report_text report) now in
      (map_err machine_failed r, m')
  resolve m id (err (unknown_order _)) now =
      let (r, m') =
        transition m id OrderStatus.rejected (bytes "not found at broker during reconciliation")
          now in
      (map_err machine_failed r, m')
  resolve m id (err e) now = (err (broker_failed (error_text e)), m)

  -- the registration of a pending order that the machine does not know
  unfoldable pub ensure : StateMachine T → Text → Result TransitionError (Unit {0}) × StateMachine T
  ensure m id = if is_some (status m id) then (ok tt, m) else register m id unknown

module _ {P T S : Type 0} (broker : Broker P T S) where
  -- `Reconciler::reconcile`
  unfoldable pub reconcile :
      StateMachine T × S
      → Text
      → Text
      → T
      → Result ReconcileError OrderStatus × (StateMachine T × S)
  reconcile (m, venue) id broker_id now = elim (status m id) [
    | none ↦ (err (machine_failed (unregistered id)), (m, venue))
    | some s ↦
        if status_eq s unknown
        then (let (answer, venue') = broker.execution_report venue broker_id in
            let (r, m') = resolve m id answer now in (r, (m', venue')))
        else (ok s, (m, venue))
  ]

  -- `Reconciler::reconcile_pending`, over the pairs in the map's iteration order; `results` are the
  -- statuses so far
  unfoldable pub reconcile_pending :
      StateMachine T × S
      → Map Text Text
      → Map Text OrderStatus
      → T
      → Result ReconcileError (Map Text OrderStatus) × (StateMachine T × S)
  reconcile_pending w [] results now = (ok results, w)
  reconcile_pending (m, venue) ((id, broker_id) ∷ rest) results now =
      let (e, m1) = ensure m id in
      elim e [
        | err x ↦ (err (machine_failed x), (m1, venue))
        | ok _ ↦
            let (r, w) = reconcile (m1, venue) id broker_id now in
            elim r [
              | err x ↦ (err x, w)
              | ok s ↦ reconcile_pending w rest (insert id s results) now
            ]
      ]
