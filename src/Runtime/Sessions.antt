-- ===== src/Runtime/Sessions.antt =====
-- Orders over several calls of the runtime.
use loss_function.Prelude.{ℕ, false, ◌≡◌, refl, ◌∙◌, none, some, List, Result, ok, err}
use loss_function.Prelude.Text.{text_eq}
use loss_function.Prelude.Maps.{lookup, contains}
use loss_function.Decimal.{Decimal}
use loss_function.Domain.{unknown}
use loss_function.Domain.Order.{Order}
use loss_function.Broker.{
  OrderAck, BrokerError, rejected, unknown_symbol, not_open, insufficient_position, unknown_order,
  internal, Broker,
}
use loss_function.Execution.StateMachine.{status}
use loss_function.Execution.Gateway.{World, submit, SubmitError, request_of}
use loss_function.Execution.Gateway.Submission.{verdict, status_after, fresh_settled}
use loss_function.Risk.{Chrono, check_order}
use loss_function.Runtime.{TradingRuntime, status_of, after_submit, send}
use loss_function.Runtime.Cycle.{send_cleared}
use loss_function.Runtime.Syncing.{sync_execution}
use loss_function.Runtime.Syncing.Fills.{sync_untracked}

-- The answers that leave an order's fate open: all errors but a definitive rejection.
abbrev pub IsUnclear : BrokerError → Type 0
IsUnclear e = status_after (err e) ≡ unknown

verdict_unclear : (e : BrokerError) → IsUnclear e → (x : SubmitError) × (verdict (err e) ≡ err x)
verdict_unclear (rejected m) h = cc
verdict_unclear (internal m) h = (_, refl)
verdict_unclear (unknown_symbol m) h = (_, refl)
verdict_unclear (not_open m) h = (_, refl)
verdict_unclear (insufficient_position m) h = (_, refl)
verdict_unclear (unknown_order m) h = (_, refl)

module _ {P T Δ D S : Type 0} ⦃d : Decimal P⦄ (c : Chrono T Δ) (broker : Broker P T S)
    (checked_at sent_at : ℕ → T) where
  after_refusal :
      (o : Order P) (sent : List (Order P)) (r : TradingRuntime P T Δ D S)
      (x : Result SubmitError OrderAck × World T S) (e : SubmitError)
      → x.0 ≡ err e
      → after_submit c broker checked_at sent_at o sent r x ≡ (sent, record r { world = x.1 })
  unfolding after_submit
  after_refusal o sent r (ok ack, w) e h = cc
  after_refusal o sent r (err x, w) e h = refl

  -- A new order that passes the risk check and that the venue answers without a definitive verdict
  -- (a timeout, say) is not reported as submitted; its status is unknown; and it is not among the
  -- open orders, so that an execution sync returns `unknown` and changes nothing: it does not ask the
  -- venue what became of the order.
  pub unclear_stays :
      (o : Order P) (sent : List (Order P)) (r : TradingRuntime P T Δ D S) (later : T) (n : P)
      (e : BrokerError)
      → check_order c r.risk (checked_at r.order_seq) o r.portfolio r.quotes ≡ ok n
      → contains o.client_order_id r.world.broker_ids ≡ false
      → status r.world.machine o.client_order_id ≡ none
      → lookup o.client_order_id r.open_local ≡ none
      → (broker.submit_order r.world.venue (request_of o)).0 ≡ err e
      → IsUnclear e
      → let (sent', r') = send c broker checked_at sent_at o (sent, r) in
        (sent' ≡ sent)
        × (status_of r' o.client_order_id ≡ some unknown)
        × (sync_execution broker r' o.client_order_id later ≡ (some unknown, r'))
  unfolding status_of
  unclear_stays o sent r later n e k fresh new untracked answer h =
      let (x, v) = verdict_unclear e h in
      let (result, state, venue) = fresh_settled broker r.world o (sent_at r.order_seq) fresh new in
      let left = submit broker r.world o (sent_at r.order_seq) in
      let at_end : status left.1.machine o.client_order_id ≡ some unknown =
        state ∙ rw answer (rw h) in
      rw (send_cleared c broker checked_at sent_at o sent r k) (
        rw (after_refusal o sent r left x (result ∙ rw answer v)) (
          refl,
          at_end,
          rw (sync_untracked broker (record r { world = left.1 }) o.client_order_id later untracked)
              (rw at_end),
        ))
