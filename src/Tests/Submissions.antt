-- ===== src/Tests/Submissions.antt =====
-- The gateway, the reconciler and the in-memory venue at concrete orders.
use loss_function.Prelude.{arith, none, ok, err, ℕ, ◌≡◌, List, refl, true, false, some, [], ◌∷◌}
use loss_function.Prelude.Int.{ℤ, pos}
use loss_function.Prelude.Text.{Text, text_eq}
use loss_function.Prelude.Maps.{lookup, insert}
use loss_function.Types.{symbol_eq, buy, sell, market, limit}
use loss_function.Domain.{unknown, filled}
use loss_function.Domain.Order.{Order}
use loss_function.Broker.{OrderRequest, OrderAck, ExecutionReport, internal, Broker}
use loss_function.Broker.Mock.{
  Venue, mock_broker, submit_order, execution_report, accept, mock_id, fills_now,
}
use loss_function.Broker.Mock.Acks.{submit_idempotent, phantom_sale}
use loss_function.Execution.StateMachine.{
  StateMachine, new, status, register, transition, can_transition, transitions, has_status,
  status_eq, record_event, events,
}
use loss_function.Execution.Gateway.{
  request_of, submit, target_status, report_text, resolve, ensure, reconcile, reconcile_pending,
  World, duplicate,
}
use loss_function.Execution.Gateway.Submission.{verdict, status_after, fresh_settled}
use loss_function.Execution.Gateway.Once.{resubmission_refused, Distinct, submit_all, sent_once}
use loss_function.Execution.Gateway.Reconciliation.{reconcile_unknown, reported, all_filled}
use loss_function.Execution.Gateway.Recovery.{AllResolved, recovery_resolves}
use loss_function.Tests.Samples.{whole, samsung, hynix, id_a, id_b}
use loss_function.Tests.Orders.{ten}

-- a venue that trades samsung at 490, and nothing else
abbrev pub venue : Venue ℤ ℕ
venue = record {
  prices = (samsung, pos 490) ∷ [];
  acks = [];
  reports = [];
  held = [];
  next_broker_id = 1;
}

abbrev start : World ℕ (Venue ℤ ℕ)
start = record { broker_ids = []; machine = new; venue = venue }

-- the same order for a symbol without a price
abbrev unpriced : Order ℤ
unpriced = record ten { symbol = hynix; client_order_id = id_b }

abbrev unsent : World ℕ (Venue ℤ ℕ × List Text)
unsent = record { broker_ids = []; machine = new; venue = (venue, []) }

sent_once_example :
    Distinct (submit_all (mock_broker 7) unsent ((ten, 1) ∷ (unpriced, 2) ∷ (ten, 3) ∷ [])).venue.1
sent_once_example =
    sent_once (mock_broker 7) unsent ((ten, 1) ∷ (unpriced, 2) ∷ (ten, 3) ∷ []) (tt, λ id h. cc)

resubmission_refused_example :
    let w' = (submit (mock_broker 7) start unpriced 1).1 in
    submit (mock_broker 7) w' unpriced 2 ≡ (err (duplicate id_b), w')
resubmission_refused_example = resubmission_refused (mock_broker 7) start unpriced 1 2

fresh_settled_example :
    let (answer, v) = submit_order 7 venue (request_of ten) in
    let (r, w') = submit (mock_broker 7) start ten 1 in
    (r ≡ verdict answer) × (status w'.machine id_a ≡ some (status_after answer)) × (w'.venue ≡ v)
unfolding status lookup
fresh_settled_example = fresh_settled (mock_broker 7) start ten 1 refl refl

-- an order that is lost, and the venue's report of it
abbrev lost : StateMachine ℕ
lost = record new { statuses = (id_a, unknown) ∷ [] }

abbrev report : ExecutionReport ℤ ℕ
report = record {
  broker_order_id = id_b;
  client_order_id = id_a;
  symbol = samsung;
  side = buy;
  order_type = limit;
  order_quantity = pos 10;
  filled_quantity = pos 10;
  average_fill_price = some (pos 490);
  is_open = false;
  timestamp = 6;
}

abbrev reporting : Venue ℤ ℕ
reporting = record venue { reports = (id_b, report) ∷ [] }

-- a venue that never answers
abbrev silent : Broker ℤ ℕ (Unit {0})
silent = record {
  submit_order = λ s r. (err (internal []), s);
  cancel_order = λ s id. (err (internal []), s);
  execution_report = λ s id. (err (internal []), s);
  positions = λ s. (err (internal []), s);
  quote = λ s x. (err (internal []), s);
}

reconcile_unknown_example :
    let (r, w) = reconcile (mock_broker 7) (lost, reporting) id_a id_b 9 in
    (r ≡ ok filled) × (status w.0 id_a ≡ some filled) × (w.1 ≡ reporting)
unfolding status lookup execution_report target_status
reconcile_unknown_example =
    reconcile_unknown (mock_broker 7) lost reporting id_a id_b 9 {s = filled} refl
      (reported (all_filled refl (omega arith)))

recovery_resolves_example :
    AllResolved
      ((id_a, id_b) ∷ [])
      (reconcile_pending (mock_broker 7) (new, reporting) ((id_a, id_b) ∷ []) [] 9).1.0
unfolding reconcile_pending ensure reconcile resolve report_text target_status register transition
    can_transition transitions has_status status_eq record_event events status lookup insert
    execution_report
recovery_resolves_example =
    recovery_resolves (mock_broker 7) ((id_a, id_b) ∷ []) new reporting []
      {final = (id_a, filled) ∷ []} 9 refl

submit_idempotent_example :
    let ack : OrderAck = record { client_order_id = id_a; broker_order_id = mock_id 1 } in
    let v' = (submit_order 7 venue (request_of ten)).1 in
    submit_order 8 v' (request_of ten) ≡ (ok ack, v')
unfolding submit_order accept lookup request_of
submit_idempotent_example = submit_idempotent 7 8 venue (request_of ten) (request_of ten) refl refl

abbrev bare_sale : OrderRequest ℤ
bare_sale = record {
  client_order_id = id_a;
  symbol = samsung;
  side = sell;
  order_type = market;
  quantity = pos 10;
  limit_price = none;
}

-- five shares, of which ten are sold
abbrev small_venue : Venue ℤ ℕ
small_venue = record venue { held = (samsung, (pos 5, pos 480)) ∷ [] }

phantom_sale_example :
    let v' = (submit_order 7 small_venue bare_sale).1 in
    (v'.held ≡ small_venue.held)
    × (r : ExecutionReport ℤ ℕ) × (execution_report v' (mock_id 1) ≡ ok r)
    × (r.filled_quantity ≡ pos 10)
unfolding lookup fills_now
phantom_sale_example =
    phantom_sale 7 small_venue bare_sale (pos 490) refl refl refl refl (omega arith)

abbrev open_venue : Venue ℤ ℕ
open_venue = record venue { reports = (id_b, record report { is_open = true }) ∷ [] }
