-- ===== src/Runtime/Syncing/Fills.antt =====
-- What an execution sync does with the venue's report of an open order.
use loss_function.Prelude.{
  true, false, ◌≡◌, refl, sym, ◌∙◌, ap, ◌↔◌, ◌⊎◌, inl, inr, none, some, ok, arith, if◌then◌else◌,
}
use loss_function.Prelude.Int.{◌<ℤ◌}
use loss_function.Prelude.Keys.{beq_refl}
use loss_function.Prelude.Text.{Text, text_eq}
use loss_function.Prelude.Maps.{lookup, lookup-remove}
use loss_function.Decimal.{Decimal}
use loss_function.Domain.{OrderStatus, cancelled}
use loss_function.Domain.Portfolio.{Portfolio}
use loss_function.Broker.{ExecutionReport, Broker}
use loss_function.Execution.StateMachine.{StateMachine, status, can_transition, status_eq}
use loss_function.Execution.StateMachine.Steps.{transition_legal}
use loss_function.Execution.Gateway.{target_status}
use loss_function.Execution.Gateway.Reconciliation.{Means, target_status_exact}
use loss_function.Runtime.Syncing.Outcomes.{Outcome, report-Outcome}
use loss_function.Runtime.{TradingRuntime, is_working}
use loss_function.Runtime.Syncing.{
  sync_text, book_report, book_answer, follow, apply_fills, find_status, close_order,
  sync_execution,
}

status_eq_iff : (s t : OrderStatus) → (status_eq s t ≡ true) ↔ (s ≡ t)
unfolding status_eq
status_eq_iff s t = ground arith

module _ {P T : Type 0} where
  -- a machine takes the report's status if the table allows it
  follow_legal :
      (m : StateMachine T) (id : Text) (s : OrderStatus) (report : ExecutionReport P T) (now : T)
      → status m id ≡ some s
      → can_transition s (target_status report) ≡ true
      → let (found, m') = follow m id s (ok report) now in
        (found ≡ some (target_status report)) × (status m' id ≡ some (target_status report))
  unfolding follow
  follow_legal m id s report now h c =
      let (r, after, _, _) =
        transition_legal m id s (target_status report) (sync_text report) now h c in
      ground (arith, r, after, status_eq_iff (target_status report) s)

module _ {P T : Type 0} where
  -- the same where the report tells nothing new
  follow_next :
      (m : StateMachine T) (id : Text) (s : OrderStatus) (report : ExecutionReport P T) (now : T)
      → status m id ≡ some s
      → (s ≡ target_status report) ⊎ (can_transition s (target_status report) ≡ true)
      → let (found, m') = follow m id s (ok report) now in
        (found ≡ some (target_status report)) × (status m' id ≡ some (target_status report))
  unfolding follow
  follow_next m id s report now h (inl same) =
      ground (arith, h, same, status_eq_iff (target_status report) s)
  follow_next m id s report now h (inr legal) = follow_legal m id s report now h legal

module _ {P T : Type 0} ⦃d : Decimal P⦄ where
  -- an order that is still working has no fill booked
  book_working :
      (id : Text) (s : OrderStatus) (report : ExecutionReport P T) (p : Portfolio P)
      → is_working s ≡ true
      → book_report id (some s) report p ≡ p
  unfolding book_report is_working
  book_working id s report p h = ground arith

module _ {P T : Type 0} where
  target_cancelled :
      (report : ExecutionReport P T)
      → report.is_open ≡ false
      → report.filled_quantity <ℤ report.order_quantity
      → target_status report ≡ cancelled
  unfolding target_status
  target_cancelled report h k = ground arith

  working_cancelled :
      (s : OrderStatus) (report : ExecutionReport P T)
      → is_working s ≡ true
      → target_status report ≡ cancelled
      → can_transition s (target_status report) ≡ true
  unfolding is_working can_transition
  working_cancelled s report w c = rw c (ground arith)

module _ {P T Δ D S : Type 0} ⦃d : Decimal P⦄ (broker : Broker P T S) where
  pub sync_open :
      (r : TradingRuntime P T Δ D S) (id b : Text) (s : OrderStatus) (now : T)
      → lookup id r.open_local ≡ some b
      → status r.world.machine id ≡ some s
      → sync_execution broker r id now ≡ (
          let (found, r') = find_status broker r id b s now in
          elim found [ none ↦ (none, r') | some to ↦ (some to, close_order broker r' id b to) ])
  unfolding sync_execution
  sync_open r id b s now h k = ground arith

  find_working :
      (r : TradingRuntime P T Δ D S) (id b : Text) (s : OrderStatus) (report : ExecutionReport P T)
      (now : T)
      → is_working s ≡ true
      → broker.execution_report r.world.venue b ≡ (ok report, r.world.venue)
      → find_status broker r id b s now ≡ (
          let (found, m) = follow r.world.machine id s (ok report) now in
          (found, record r { world = record r.world { machine = m } }))
  unfolding find_status
  find_working r id b s report now w e = ground arith

  sync_closed :
      (r : TradingRuntime P T Δ D S) (id b : Text) (s : OrderStatus) (report : ExecutionReport P T)
      (now : T) {t : OrderStatus}
      → lookup id r.open_local ≡ some b
      → status r.world.machine id ≡ some s
      → is_working s ≡ true
      → (follow r.world.machine id s (ok report) now).0 ≡ some t
      → broker.execution_report r.world.venue b ≡ (ok report, r.world.venue)
      → sync_execution broker r id now ≡ (
        some t,
        close_order broker
            (record r {
              world = record r.world { machine = (follow r.world.machine id s (ok report) now).1 };
            })
            id
            b
            t,
      )
  sync_closed r id b s report now h k w found e =
      ground (arith, sync_open r id b s now h k, find_working r id b s report now w e, found)

  -- the closing, where the venue gives the report again
  close_lem :
      (r : TradingRuntime P T Δ D S) (id b : Text) (t : OrderStatus) (report : ExecutionReport P T)
      → lookup id r.open_local ≡ some b
      → status r.world.machine id ≡ some t
      → broker.execution_report r.world.venue b ≡ (ok report, r.world.venue)
      → let r' = close_order broker r id b t in
        (r'.world.machine ≡ r.world.machine)
        × (r'.portfolio ≡ book_report id (some t) report r.portfolio)
        × (lookup id r'.open_local ≡ (if is_working t then some b else none))
  unfolding close_order apply_fills book_answer
  close_lem r id b t report h k e = ground (
    arith,
    e,
    book_working id t report r.portfolio,
    lookup-remove id id r.open_local,
    beq_refl id,
  )

  pub sync_followed :
      (r : TradingRuntime P T Δ D S) (id b : Text) (s : OrderStatus) (report : ExecutionReport P T)
      (now : T)
      → lookup id r.open_local ≡ some b
      → status r.world.machine id ≡ some s
      → is_working s ≡ true
      → (s ≡ target_status report) ⊎ (can_transition s (target_status report) ≡ true)
      → broker.execution_report r.world.venue b ≡ (ok report, r.world.venue)
      → let t = target_status report in
        let (found, r') = sync_execution broker r id now in
        (found ≡ some t)
        × (status r'.world.machine id ≡ some t)
        × (r'.portfolio ≡ book_report id (some t) report r.portfolio)
        × (lookup id r'.open_local ≡ (if is_working t then some b else none))
  sync_followed r id b s report now h k w next e =
      let (found, after) = follow_next r.world.machine id s report now k next in
      let m = (follow r.world.machine id s (ok report) now).1 in
      let followed = record r { world = record r.world { machine = m } } in
      let (machine, portfolio, open_local) =
        close_lem followed id b (target_status report) report h after e in
      rw (sync_closed r id b s report now h k w found e)
        (refl, ap (λ x. status x id) machine ∙ after, portfolio, open_local)

  -- An execution sync of a working order whose report the venue gives (and gives again if it is asked
  -- again), where the status that the report means is the order's, or one that the table allows next.
  -- A report means filled if it is closed with all shares, cancelled if it is closed with fewer,
  -- partially filled if it is open with some, and submitted if it is open with none. The sync returns
  -- that status and the machine has it. An order that is filled or cancelled leaves the open orders, the
  -- others stay. A filled order is booked with its filled quantity at its average price, unless it has
  -- no price, no shares, or the portfolio refuses the fill; nothing else changes the portfolio.
  pub sync_working :
      (r : TradingRuntime P T Δ D S) (id b : Text) (s : OrderStatus) (report : ExecutionReport P T)
      (now : T) {t : OrderStatus}
      → lookup id r.open_local ≡ some b
      → status r.world.machine id ≡ some s
      → is_working s ≡ true
      → Means report t
      → (s ≡ t) ⊎ (can_transition s t ≡ true)
      → broker.execution_report r.world.venue b ≡ (ok report, r.world.venue)
      → let (found, r') = sync_execution broker r id now in
        (found ≡ some t)
        × (status r'.world.machine id ≡ some t)
        × Outcome id b report r.portfolio t (lookup id r'.open_local) r'.portfolio
  sync_working r id b s report now {t} h k w means next e =
      let exact = target_status_exact report means in
      let (found, at_t, portfolio, open_local) =
        sync_followed r id b s report now h k w (rw (sym exact) at next) e in
      (
        found ∙ ap some exact,
        at_t ∙ ap some exact,
        rw (portfolio, open_local, exact) (report-Outcome id b report r.portfolio means),
      )

  -- what sync_execution does with an order that is not among the open ones
  pub sync_untracked :
      (r : TradingRuntime P T Δ D S) (id : Text) (now : T)
      → lookup id r.open_local ≡ none
      → sync_execution broker r id now ≡ (status r.world.machine id, r)
  unfolding sync_execution
  sync_untracked r id now h = ground arith

  pub sync_unknown :
      (r : TradingRuntime P T Δ D S) (id b : Text) (now : T)
      → lookup id r.open_local ≡ some b
      → status r.world.machine id ≡ none
      → sync_execution broker r id now ≡ (none, r)
  unfolding sync_execution
  sync_unknown r id b now h k = ground arith

  -- A working order that the venue reports as closed short of its quantity, with any fill at all, is
  -- found cancelled and leaves the open orders, and the portfolio stays as it was: a partial fill is
  -- not booked. No later sync of the order changes anything.
  pub partial_fill_dropped :
      (r : TradingRuntime P T Δ D S) (id b : Text) (s : OrderStatus) (report : ExecutionReport P T)
      (now later : T)
      → lookup id r.open_local ≡ some b
      → status r.world.machine id ≡ some s
      → is_working s ≡ true
      → broker.execution_report r.world.venue b ≡ (ok report, r.world.venue)
      → report.is_open ≡ false
      → report.filled_quantity <ℤ report.order_quantity
      → let (found, r') = sync_execution broker r id now in
        (found ≡ some cancelled)
        × (r'.portfolio ≡ r.portfolio)
        × (sync_execution broker r' id later ≡ (some cancelled, r'))
  unfolding is_working book_report
  partial_fill_dropped r id b s report now later h k w e shut short =
      let c = target_cancelled report shut short in
      let (found, machine, portfolio, open_local) =
        sync_followed r id b s report now h k w (inr (working_cancelled s report w c)) e in
      let (x, r') = sync_execution broker r id now in
      let untracked : lookup id r'.open_local ≡ none = ground (arith, open_local, c) in
      (
        found ∙ rw c,
        portfolio ∙ rw c,
        rw (sync_untracked r' id later untracked) (rw machine (rw c)),
      )
