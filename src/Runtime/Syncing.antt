-- ===== src/Runtime/Syncing.antt =====
-- rust/lossfunction/src/runtime/mod.rs: what the runtime learns of the venue: the execution sync of
-- open orders, the restart recovery and the portfolio that is rebuilt from the venue's positions.
pub mod Outcomes
pub mod Fills
pub mod Rebuild
use loss_function.Prelude.{
  ℕ, Bool, true, false, Option, none, some, List, [], ◌∷◌, ◌++◌, map, foldl, Result, ok, err,
  map_err, if◌then◌else◌,
}
use loss_function.Prelude.Int.{ℤ, pos, ltb_ℤ, eqb_ℤ}
use loss_function.Prelude.Text.{Text, text_eq, bytes, show_int}
use loss_function.Prelude.Maps.{Map, lookup, insert, remove}
use loss_function.Decimal.{Decimal}
use loss_function.Types.{buy, Symbol}
use loss_function.Domain.{OrderStatus, filled, unknown}
use loss_function.Domain.Portfolio.{Fill, Portfolio, empty, apply_fill}
use loss_function.Broker.{BrokerError, ExecutionReport, Position, Broker}
use loss_function.Execution.StateMachine.{
  StateMachine, TransitionError, status, transition, status_eq,
}
use loss_function.Execution.Gateway.{
  World, ReconcileError, reconcile, reconcile_pending, target_status,
}
use loss_function.Runtime.{TradingRuntime, is_working}

-- The reason that an execution sync records.
unfoldable pub sync_text : {P T : Type 0} → ExecutionReport P T → Text
sync_text r =
    bytes "execution sync: filled "
    ++ (show_int r.filled_quantity
        ++ (bytes "/"
            ++ (show_int r.order_quantity
                ++ (bytes " open=" ++ (if r.is_open then bytes "true" else bytes "false")))))

-- the portfolio after a fill that it may refuse
unfoldable pub with_fill : {P : Type 0} ⦃d : Decimal P⦄ → Portfolio P → Fill P → Portfolio P
with_fill p f = elim (apply_fill p f) [ err x ↦ p | ok next ↦ next ]

module _ {P T : Type 0} ⦃d : Decimal P⦄ where
  -- the rest of `apply_fills`, for a report of an order and the order's status
  unfoldable pub book_report :
      Text → Option OrderStatus → ExecutionReport P T → Portfolio P → Portfolio P
  book_report id (some filled) report p =
      if ltb_ℤ (pos 0) report.filled_quantity
      then elim report.average_fill_price [
        | none ↦ p
        | some price ↦ with_fill p (record {
          client_order_id = id;
          symbol = report.symbol;
          side = report.side;
          quantity = report.filled_quantity;
          price = price;
        })
      ]
      else p
  book_report id _ report p = p

  -- the answer to `apply_fills`: without a report the portfolio stays
  unfoldable pub book_answer :
      Text
      → Option OrderStatus
      → Result BrokerError (ExecutionReport P T)
      → Portfolio P
      → Portfolio P
  book_answer id s (err x) p = p
  book_answer id s (ok report) p = book_report id s report p

module _ {P T : Type 0} where
  -- the `match` on the report of a working order: the status that the sync finds, if the machine
  -- takes it
  unfoldable pub follow :
      StateMachine T
      → Text
      → OrderStatus
      → Result BrokerError (ExecutionReport P T)
      → T
      → Option OrderStatus × StateMachine T
  follow m id s (err x) now = (some s, m)
  follow m id s (ok report) now =
      if status_eq (target_status report) s
      then (some s, m)
      else let (r, m') = transition m id (target_status report) (sync_text report) now in
        (elim r [ err x ↦ none | ok to ↦ some to ], m')

module _ {P T Δ D S : Type 0} ⦃d : Decimal P⦄ (broker : Broker P T S) where
  -- `apply_fills`
  unfoldable pub apply_fills : TradingRuntime P T Δ D S → Text → Text → TradingRuntime P T Δ D S
  apply_fills r id broker_id =
      let (answer, venue) = broker.execution_report r.world.venue broker_id in
      record r {
        world = record r.world { venue = venue };
        portfolio = book_answer id (status r.world.machine id) answer r.portfolio;
      }

  -- the part of `sync_execution` that finds the status
  unfoldable pub find_status :
      TradingRuntime P T Δ D S
      → Text
      → Text
      → OrderStatus
      → T
      → Option OrderStatus × TradingRuntime P T Δ D S
  find_status r id broker_id s now =
      if is_working s
      then (let (answer, venue) = broker.execution_report r.world.venue broker_id in
          let (found, m) = follow r.world.machine id s answer now in
          (found, record r { world = record r.world { machine = m; venue = venue } }))
      else if status_eq s unknown
      then (let (x, (m, venue)) =
            reconcile broker (r.world.machine, r.world.venue) id broker_id now in
          (
            elim x [ err e ↦ none | ok to ↦ some to ],
            record r { world = record r.world { machine = m; venue = venue } },
          ))
      else (some s, r)

  -- the part after it: an order that is not working any more has its fill booked and is closed
  unfoldable pub close_order :
      TradingRuntime P T Δ D S → Text → Text → OrderStatus → TradingRuntime P T Δ D S
  close_order r id broker_id s =
      if is_working s
      then r
      else let booked = apply_fills r id broker_id in
        record booked { open_local = remove id booked.open_local }

  -- `sync_execution`
  unfoldable pub sync_execution :
      TradingRuntime P T Δ D S → Text → T → Option OrderStatus × TradingRuntime P T Δ D S
  sync_execution r id now = elim (lookup id r.open_local) [
    | none ↦ (status r.world.machine id, r)
    | some broker_id ↦ elim (status r.world.machine id) [
      | none ↦ (none, r)
      | some s ↦
          let (found, r') = find_status r id broker_id s now in
          elim found [ none ↦ (none, r') | some to ↦ (some to, close_order r' id broker_id to) ]
    ]
  ]

  -- one turn of the loop of `sync_all`, at the clock's reading for the order
  unfoldable pub sync_one :
      (Text → T)
      → Map Text OrderStatus × TradingRuntime P T Δ D S
      → Text
      → Map Text OrderStatus × TradingRuntime P T Δ D S
  sync_one now (results, r) id =
      let (found, r') = sync_execution r id (now id) in
      (elim found [ none ↦ results | some s ↦ insert id s results ], r')

  -- `sync_all`, over the open orders in the map's iteration order
  unfoldable pub sync_all :
      (Text → T) → TradingRuntime P T Δ D S → Map Text OrderStatus × TradingRuntime P T Δ D S
  sync_all now r = foldl (sync_one now) ([], r) (map (λ (e : Text × Text). e.0) r.open_local)

-- the fill that stands for a position of the venue
unfoldable pub restoring : {P : Type 0} → Position P → Fill P
restoring p = record {
  client_order_id = bytes "restore-" ++ p.symbol.text;
  symbol = p.symbol;
  side = buy;
  quantity = p.quantity;
  price = p.average_price;
}

-- one turn of the loop of `rebuild_portfolio`
unfoldable pub restore : {P : Type 0} ⦃d : Decimal P⦄ → Portfolio P → Position P → Portfolio P
restore next p = if eqb_ℤ p.quantity (pos 0) then next else with_fill next (restoring p)

-- the open orders after a recovery
unfoldable pub reopen : Map Text Text → Map Text Text → Text × OrderStatus → Map Text Text
reopen pending open_local (id, s) =
    if is_working s
    then elim (lookup id pending) [ none ↦ open_local | some b ↦ insert id b open_local ]
    else open_local

-- `unwrap_or_default` of the results
unfoldable pub results_of : Result ReconcileError (Map Text OrderStatus) → Map Text OrderStatus
results_of (ok results) = results
results_of (err x) = []

module _ {P T Δ D S : Type 0} ⦃d : Decimal P⦄ (broker : Broker P T S) where
  -- `rebuild_portfolio`
  unfoldable pub rebuild_portfolio : TradingRuntime P T Δ D S → TradingRuntime P T Δ D S
  rebuild_portfolio r =
      let (answer, venue) = broker.positions r.world.venue in
      record r {
        world = record r.world { venue = venue };
        portfolio = elim answer [ err x ↦ r.portfolio | ok ps ↦ foldl restore empty ps ];
      }

  -- `recover`
  unfoldable pub recover :
      TradingRuntime P T Δ D S → Map Text Text → T → Map Text OrderStatus × TradingRuntime P T Δ D S
  recover r pending now =
      let (x, (m, venue)) =
        reconcile_pending broker (r.world.machine, r.world.venue) pending [] now in
      let results = results_of x in
      let rebuilt =
        rebuild_portfolio (record r { world = record r.world { machine = m; venue = venue } }) in
      (results, record rebuilt { open_local = foldl (reopen pending) rebuilt.open_local results })
