-- ===== src/Execution/Gateway/Submission.antt =====
-- What one submission does, by the venue's answer.
use loss_function.Prelude.{
  true, false, ◌≡◌, refl, ◌⊎◌, none, some, ◌++◌, Result, ok, err, arith, is_some,
}
use loss_function.Prelude.Keys.{beq_refl}
use loss_function.Prelude.Text.{Text, text_eq, bytes}
use loss_function.Prelude.Maps.{contains, insert}
use loss_function.Domain.{OrderStatus, pending, submitted, unknown}
use loss_function.Domain.Order.{Order}
use loss_function.Broker.{
  OrderAck, BrokerError, rejected, unknown_symbol, not_open, insufficient_position, unknown_order,
  internal, error_text, Broker,
}
use loss_function.Execution.StateMachine.{
  StateMachine, TransitionError, status, transition, mark_unknown, can_transition,
  unknown_entry_allowed_from,
}
use loss_function.Execution.StateMachine.Audit.{register_new, status-with_order, with_order}
use loss_function.Execution.StateMachine.Steps.{
  transition_at, mark_unknown_exact, status-record_event, event_of,
}
use loss_function.Execution.Gateway.{
  SubmitError, duplicate, timeout, broker_refused, World, request_of, after, settle, submit_new,
  submit,
}

-- The gateway knows an order that it has an id for or that the machine has a status for.
abbrev pub IsKnown : {T S : Type 0} → World T S → Text → Type 0
IsKnown w id = (contains id w.broker_ids ≡ true) ⊎ (is_some (status w.machine id) ≡ true)

-- The result and the status that a venue's answer calls for.
abbrev pub verdict : Result BrokerError OrderAck → Result SubmitError OrderAck
verdict (ok ack) = ok ack
verdict (err (rejected m)) = err (broker_refused (rejected m))
verdict (err e) = err (timeout (error_text e))

abbrev pub status_after : Result BrokerError OrderAck → OrderStatus
status_after (ok ack) = submitted
status_after (err (rejected m)) = OrderStatus.rejected
status_after (err e) = unknown

module _ {T : Type 0} where
  transition_pending :
      (m : StateMachine T) (id : Text) (to : OrderStatus) (reason : Text) (now : T)
      → status m id ≡ some pending
      → can_transition pending to ≡ true
      → ((transition m id to reason now).0 ≡ ok to)
        × (status (transition m id to reason now).1 id ≡ some to)
  transition_pending m id to reason now s c = rw (transition_at m id pending to reason now s) (
      rw c (
        refl,
        rw (status-record_event m (event_of id pending to reason now) id) (rw (beq_refl id)),
      ))

  mark_pending :
      (m : StateMachine T) (id reason : Text) (now : T)
      → status m id ≡ some pending
      → ((mark_unknown m id reason now).0 ≡ ok unknown)
        × (status (mark_unknown m id reason now).1 id ≡ some unknown)
  unfolding unknown_entry_allowed_from
  mark_pending m id reason now s = rw (mark_unknown_exact m id reason now pending s) (
    refl,
    rw (status-record_event m (event_of id pending unknown reason now) id) (rw (beq_refl id)),
  )

module _ {T S : Type 0} where
  -- A call of the machine that succeeds hands its machine on.
  after_ok :
      {A : Type 0} (w : World T S) (r : Result TransitionError OrderStatus × StateMachine T)
      (k : World T S → Result SubmitError A × World T S) {s : OrderStatus}
      → r.0 ≡ ok s
      → after w r k ≡ k (record w { machine = r.1 })
  unfolding after
  after_ok w (ok s, m) k h = refl
  after_ok w (err e, m) k h = cc

  -- A settled submission has the verdict and the status that the answer calls for.
  abbrev Settled :
      World T S
      → Text
      → Result BrokerError OrderAck
      → Result SubmitError OrderAck × World T S
      → Type 0
  Settled w id answer s =
      (s.0 ≡ verdict answer)
      × (status s.1.machine id ≡ some (status_after answer))
      × (s.1.venue ≡ w.venue)

  abbrev gives_up : BrokerError → World T S → Result SubmitError OrderAck × World T S
  gives_up e w = (err (timeout (error_text e)), w)

  settle_lost :
      (w : World T S) (id : Text) (e : BrokerError) (reason : Text) (now : T)
      → status w.machine id ≡ some pending
      → let s = after w (mark_unknown w.machine id reason now) (gives_up e) in
        (s.0 ≡ err (timeout (error_text e)))
        × (status s.1.machine id ≡ some unknown)
        × (s.1.venue ≡ w.venue)
  settle_lost w id e reason now s =
      let call = mark_unknown w.machine id reason now in
      let (k, m) = mark_pending w.machine id reason now s in
      rw (after_ok w call (gives_up e) k) (refl, m, refl)

  settle_lem :
      (w : World T S) (id : Text) (answer : Result BrokerError OrderAck) (now : T)
      → status w.machine id ≡ some pending
      → Settled w id answer (settle w id answer now)
  unfolding settle can_transition
  settle_lem w id (ok ack) now s =
      let reason = bytes "broker ack " ++ ack.broker_order_id in
      let (k, m) = transition_pending w.machine id submitted reason now s refl in
      rw
        (after_ok w (transition w.machine id submitted reason now)
          (λ w'. (ok ack, record w' { broker_ids = insert id ack.broker_order_id w'.broker_ids }))
          k)
        (refl, m, refl)
  settle_lem w id (err (rejected r)) now s =
      let reason = bytes "broker rejected: " ++ error_text (rejected r) in
      let (k, m) = transition_pending w.machine id OrderStatus.rejected reason now s refl in
      rw
        (after_ok w (transition w.machine id OrderStatus.rejected reason now)
          (λ w'. (err (broker_refused (rejected r)), w')) k)
        (refl, m, refl)
  settle_lem w id (err (internal r)) now s = settle_lost w id (internal r) _ now s
  settle_lem w id (err (unknown_symbol r)) now s = settle_lost w id (unknown_symbol r) _ now s
  settle_lem w id (err (not_open r)) now s = settle_lost w id (not_open r) _ now s
  settle_lem w id (err (insufficient_position r)) now s =
      settle_lost w id (insufficient_position r) _ now s
  settle_lem w id (err (unknown_order r)) now s = settle_lost w id (unknown_order r) _ now s

module _ {P T S : Type 0} (broker : Broker P T S) where
  -- An order that the gateway knows is refused as a duplicate, and nothing changes: the venue is not
  -- called, and the machine and the ids are as before.
  pub duplicate_refused :
      (w : World T S) (o : Order P) (now : T)
      → IsKnown w o.client_order_id
      → submit broker w o now ≡ (err (duplicate o.client_order_id), w)
  unfolding submit
  duplicate_refused w o now k = ground arith

  -- What `submit` hands to `settle`: the order registered as pending, and the venue called once.
  abbrev pub called : World T S → Order P → World T S
  called w o = record w {
    machine = with_order w.machine o.client_order_id pending;
    venue = (broker.submit_order w.venue (request_of o)).1;
  }

  pub submit_fresh :
      (w : World T S) (o : Order P) (now : T)
      → contains o.client_order_id w.broker_ids ≡ false
      → status w.machine o.client_order_id ≡ none
      → submit broker w o now
        ≡ settle (called w o) o.client_order_id (broker.submit_order w.venue (request_of o)).0 now
  unfolding submit submit_new
  submit_fresh w o now c s =
      rw (c, s) (ground (arith, register_new w.machine o.client_order_id pending s))

  -- An order that the gateway does not know is sent to the venue once. The result and the order's
  -- status are those that the venue's answer calls for: an acknowledgement makes it submitted, a
  -- definitive rejection rejected, and any other error unknown. The machine never refuses.
  pub fresh_settled :
      (w : World T S) (o : Order P) (now : T)
      → contains o.client_order_id w.broker_ids ≡ false
      → status w.machine o.client_order_id ≡ none
      → let (answer, venue) = broker.submit_order w.venue (request_of o) in
        let (r, w') = submit broker w o now in
        (r ≡ verdict answer)
        × (status w'.machine o.client_order_id ≡ some (status_after answer))
        × (w'.venue ≡ venue)
  fresh_settled w o now c s =
      let id = o.client_order_id in
      let answer = (broker.submit_order w.venue (request_of o)).0 in
      rw (submit_fresh w o now c s) (
        settle_lem (called w o) id answer now
          (rw (status-with_order w.machine id pending id) (rw (beq_refl id))))
