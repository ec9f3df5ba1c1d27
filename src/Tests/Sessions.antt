-- ===== src/Tests/Sessions.antt =====
-- The runtime, on the in-memory venue. Instants and dates are numbers.
use loss_function.Prelude.{
  All, ok, err, ℕ, ◌+◌, ◌≡◌, refl, true, false, none, some, [], ◌∷◌, foldl, arith,
}
use loss_function.Prelude.Int.{ℤ, pos, ◌*ℤ◌, add_i64, wrap_i64, ◌+ℤ◌, ◌-ℤ◌}
use loss_function.Prelude.Text.{bytes, text_eq}
use loss_function.Prelude.Maps.{lookup}
use loss_function.Types.{symbol_eq, buy, market}
use loss_function.Domain.{OrderStatus, submitted, filled, cancelled, unknown}
use loss_function.Domain.Order.{Order}
use loss_function.Domain.Portfolio.{empty, position, positions, total_realized_pnl}
use loss_function.Broker.{ExecutionReport, Broker, internal}
use loss_function.Broker.Mock.{mock_broker, Venue, execution_report}
use loss_function.Execution.StateMachine.{
  status, can_transition, has_status, transitions, status_eq,
}
use loss_function.Execution.Gateway.{target_status}
use loss_function.Execution.Gateway.Once.{Distinct}
use loss_function.Risk.{
  check_order, check_quoted, order_notional, order_price, check_side, held_quantity, gross_exposure,
  exposures, mark,
}
use loss_function.Strategy.{layer, Strategy}
use loss_function.Runtime.{is_working, status_of, send, run_decision_cycle, TradingRuntime}
use loss_function.Runtime.Cleared.{recorded, IsApproved, cycle-IsCleared}
use loss_function.Broker.{OrderRequest}
use loss_function.Prelude.{List}
use loss_function.Runtime.Halt.{killed-IsIdle, IsIdle}
use loss_function.Runtime.Once.{act, never_twice, cycled, synced}
use loss_function.Runtime.Sessions.{unclear_stays}
use loss_function.Runtime.Syncing.{sync_execution, rebuild_portfolio}
use loss_function.Execution.Gateway.Reconciliation.{all_filled}
use loss_function.Prelude.{inr}
use loss_function.Runtime.Syncing.Outcomes.{Outcome}
use loss_function.Runtime.Syncing.Fills.{sync_working, partial_fill_dropped}
use loss_function.Runtime.Syncing.Rebuild.{rebuilt_position}
use loss_function.Tests.Samples.{whole, samsung, id_a, id_b}
use loss_function.Tests.Orders.{ten}
use loss_function.Tests.Limits.{seconds_clock, manager, quotes}
use loss_function.Tests.Submissions.{venue}
use loss_function.Tests.Ticks.{hours, dates}

-- a strategy that buys ten shares of samsung each time
abbrev buyer : Strategy ℤ ℕ
buyer = record {
  name = bytes "buyer";
  version = bytes "1";
  decide = λ s. record {
    strategy_name = bytes "buyer";
    strategy_version = bytes "1";
    intents =
        record {
          symbol = samsung;
          side = buy;
          order_type = market;
          quantity = pos 10;
          limit_price = none;
        }
        ∷ [];
    features = [];
    rationale = [];
  };
}

-- a runtime with one open order, on any venue
abbrev on : {S : Type 0} → S → OrderStatus → TradingRuntime ℤ ℕ ℕ ℕ S
on venue s = record {
  world = record {
    broker_ids = (id_a, bytes "m-1") ∷ [];
    machine = record {
      statuses = (id_a, s) ∷ [];
      history = (id_a, []) ∷ [];
      on_event = false;
      emitted = [];
    };
    venue = venue;
  };
  decisions = layer buyer false;
  risk = manager;
  history = record { capacity = 3; inner = [] };
  aggregator = record { inner = [] };
  quotes = quotes;
  portfolio = empty;
  order_prefix = bytes "t";
  order_seq = 0;
  open_local = (id_a, bytes "m-1") ∷ [];
}

-- the same, on a venue that records what reaches it
abbrev recording : TradingRuntime ℤ ℕ ℕ ℕ (Venue ℤ ℕ × List (OrderRequest ℤ))
recording = on (venue, []) submitted

cycle-IsCleared_example :
    let r' =
      (run_decision_cycle seconds_clock
        (recorded (mock_broker 7))
        (λ n. 110)
        (λ n. 111)
        recording).1 in
    All (IsApproved seconds_clock (λ n. 110) recording) r'.world.venue.1
    × (r'.risk ≡ manager)
    × (r'.portfolio ≡ empty)
    × (r'.quotes ≡ quotes)
cycle-IsCleared_example =
    cycle-IsCleared seconds_clock (mock_broker 7) (λ n. 110) (λ n. 111) recording refl

abbrev killed : TradingRuntime ℤ ℕ ℕ ℕ (Venue ℤ ℕ)
killed = record (on venue submitted) {
  risk = record manager { kill = record { active = true; reason = none } };
}

killed-IsIdle_example :
    IsIdle killed (run_decision_cycle seconds_clock (mock_broker 7) (λ n. 110) (λ n. 111) killed)
killed-IsIdle_example =
    killed-IsIdle seconds_clock (mock_broker 7) (λ n. 110) (λ n. 111) killed refl

never_twice_example :
    Distinct
      (foldl (act {D = ℕ} hours seconds_clock (mock_broker 7)) (on (venue, []) submitted) (
        cycled (λ n. 110) (λ n. 111)
        ∷ synced id_a 112
        ∷ cycled (λ n. 113) (λ n. 114)
        ∷ [])).world.venue.1
never_twice_example =
    never_twice hours seconds_clock (mock_broker 7) (on (venue, []) submitted)
      (cycled (λ n. 110) (λ n. 111) ∷ synced id_a 112 ∷ cycled (λ n. 113) (λ n. 114) ∷ [])
      (tt, λ id h. cc)

-- the venue's reports of the open order: four of ten filled, and not open any more; or all
abbrev closed_report : ExecutionReport ℤ ℕ
closed_report = record {
  broker_order_id = bytes "m-1";
  client_order_id = id_a;
  symbol = samsung;
  side = buy;
  order_type = market;
  order_quantity = pos 10;
  filled_quantity = pos 4;
  average_fill_price = some (pos 490);
  is_open = false;
  timestamp = 5;
}

abbrev full_report : ExecutionReport ℤ ℕ
full_report = record closed_report { filled_quantity = pos 10 }

abbrev reporting : ExecutionReport ℤ ℕ → Venue ℤ ℕ
reporting r = record venue { reports = (bytes "m-1", r) ∷ [] }

sync_working_example :
    let r = on (reporting full_report) submitted in
    let (found, r') = sync_execution (mock_broker 7) r id_a 9 in
    (found ≡ some filled)
    × (status r'.world.machine id_a ≡ some filled)
    × Outcome id_a (bytes "m-1") full_report empty filled (lookup id_a r'.open_local) r'.portfolio
unfolding lookup status is_working can_transition has_status transitions status_eq execution_report
    bytes
sync_working_example =
    sync_working (mock_broker 7) (on (reporting full_report) submitted) id_a (bytes "m-1") submitted
      full_report 9 refl refl refl (all_filled refl (omega arith)) (inr refl) refl

partial_fill_dropped_example :
    let r = on (reporting closed_report) submitted in
    let (found, r') = sync_execution (mock_broker 7) r id_a 9 in
    (found ≡ some cancelled)
    × (r'.portfolio ≡ empty)
    × (sync_execution (mock_broker 7) r' id_a 10 ≡ (some cancelled, r'))
unfolding target_status lookup status is_working execution_report bytes
partial_fill_dropped_example =
    partial_fill_dropped (mock_broker 7) (on (reporting closed_report) submitted) id_a (bytes "m-1")
      submitted closed_report 9 10 refl refl refl refl refl (omega arith)

-- a venue that gives no definitive answer
abbrev lost : Broker ℤ ℕ ℕ
lost = record {
  submit_order = λ s o. (err (internal []), s + 1);
  cancel_order = λ s id. (err (internal []), s);
  execution_report = λ s id. (err (internal []), s);
  positions =
      λ s. (ok (record { symbol = samsung; quantity = pos 5; average_price = pos 480 } ∷ []), s);
  quote = λ s x. (err (internal []), s);
}

abbrev another : Order ℤ
another = record ten { client_order_id = id_b }

unclear_stays_example :
    let (sent', r') = send seconds_clock lost (λ n. 110) (λ n. 111) another ([], on 0 submitted) in
    (sent' ≡ [])
    × (status_of r' id_b ≡ some unknown)
    × (sync_execution lost r' id_b 120 ≡ (some unknown, r'))
unfolding status check_order lookup check_quoted order_notional ◌*ℤ◌ order_price check_side add_i64
    wrap_i64 ◌+ℤ◌ held_quantity position gross_exposure exposures positions ◌-ℤ◌ total_realized_pnl
    mark
unclear_stays_example =
    unclear_stays seconds_clock lost (λ n. 110) (λ n. 111) another [] (on 0 submitted) 120
      (pos 5000) (internal []) refl refl refl refl refl refl

rebuilt_position_example :
    position (rebuild_portfolio lost (on 0 submitted)).portfolio samsung
    ≡ some (record {
      symbol = samsung;
      quantity = pos 5;
      average_price = pos 480;
      realized_pnl = pos 0;
    })
rebuilt_position_example =
    rebuilt_position lost (on 0 submitted)
      (record { symbol = samsung; quantity = pos 5; average_price = pos 480 } ∷ []) samsung refl
      (tt, tt)
