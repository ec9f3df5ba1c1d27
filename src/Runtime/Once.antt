-- ===== src/Runtime/Once.antt =====
-- No order is sent twice, over any sequence of calls of the runtime.
use loss_function.Prelude.{
  ℕ, refl, inl, inr, Option, none, some, List, [], ◌∷◌, foldl, Result, ok, err, Result-cases,
  Option-cases, Bool-cases, map,
}
use loss_function.Prelude.Keys.{Eq}
use loss_function.Prelude.Text.{Text, text_eq}
use loss_function.Prelude.Maps.{Map, lookup}
use loss_function.Decimal.{Decimal}
use loss_function.Types.{Quote}
use loss_function.Domain.{OrderStatus, unknown}
use loss_function.Domain.Order.{Order}
use loss_function.Broker.{OrderAck, Broker}
use loss_function.Execution.StateMachine.{status, status_eq}
use loss_function.Execution.Gateway.{World, SubmitError}
use loss_function.Execution.Gateway.Once.{logged, IsOnce, Distinct, submit-IsOnce}
use loss_function.Risk.{Chrono, check_order}
use loss_function.MarketData.{Bar}
use loss_function.MarketData.Aggregator as Aggregator
use loss_function.MarketData.Aggregator.{Calendar}
use loss_function.Strategy.{OrderIntent, decide}
use loss_function.Runtime.{
  TradingRuntime, with_bar, on_quote, new_order, after_submit, send, try_intent, run_decision_cycle,
  snapshot, is_working,
}
use loss_function.Runtime.Cycle.{send_cleared, send_refused, try_bad, try_good, counted}
use loss_function.Runtime.Syncing.{
  apply_fills, find_status, close_order, sync_execution, sync_one, sync_all, rebuild_portfolio,
  recover,
}
use loss_function.Runtime.Kept.{follow-Grows, once_kept, pending-Grows, reconcile-Grows}
use loss_function.Runtime.Syncing.Fills.{sync_untracked, sync_unknown, sync_open}

-- The calls of the runtime that touch the machine or the venue, with the clocks' readings.
pub data Call (P T : Type 0) : Type 0 where
  quoted : Quote P T → Call P T
  cycled : (ℕ → T) → (ℕ → T) → Call P T
  synced : Text → T → Call P T
  synced_all : (Text → T) → Call P T
  recovered : Map Text Text → T → Call P T

module _ {P T Δ D S : Type 0} ⦃d : Decimal P⦄ (broker : Broker P T S) where
  -- no order has reached the venue twice
  abbrev IsSafe : TradingRuntime P T Δ D (S × List Text) → Type 0
  IsSafe r = IsOnce broker r.world

  find-IsSafe :
      (r : TradingRuntime P T Δ D (S × List Text)) (id b : Text) (s : OrderStatus) (now : T)
      → IsSafe r
      → IsSafe (find_status (logged broker) r id b s now).1
  unfolding find_status
  find-IsSafe r id b s now h = elim (Bool-cases (is_working s)) [
    | inl k ↦ rw k (
        once_kept r.world.machine _ r.world.venue.1 _
          (follow-Grows r.world.machine id s (broker.execution_report r.world.venue.0 b).0 now) refl
          h)
    | inr k ↦ elim (Bool-cases (status_eq s unknown)) [
      | inl u ↦
          let (g, l) = reconcile-Grows broker r.world.machine r.world.venue id b now in
          rw k (rw u (once_kept r.world.machine _ r.world.venue.1 _ g l h))
      | inr u ↦ rw k (rw u h)
    ]
  ]

  close-IsSafe :
      (r : TradingRuntime P T Δ D (S × List Text)) (id b : Text) (s : OrderStatus)
      → IsSafe r
      → IsSafe (close_order (logged broker) r id b s)
  unfolding close_order apply_fills
  close-IsSafe r id b s h = elim (Bool-cases (is_working s)) [
    | inl k ↦ rw k h
    | inr k ↦ rw k (once_kept r.world.machine _ r.world.venue.1 _ (λ j x. x) refl h)
  ]

  sync-IsSafe :
      (r : TradingRuntime P T Δ D (S × List Text)) (id : Text) (now : T)
      → IsSafe r
      → IsSafe (sync_execution (logged broker) r id now).1
  unfolding sync_execution
  sync-IsSafe r id now h = elim (Option-cases (lookup id r.open_local)) [
    | inl k ↦ rw (sync_untracked (logged broker) r id now k) h
    | inr (b, k) ↦ elim (Option-cases (status r.world.machine id)) [
      | inl missing ↦ rw (sync_unknown (logged broker) r id b now k missing) h
      | inr (s, at_s) ↦
          let found = find-IsSafe r id b s now h in
          let r' = (find_status (logged broker) r id b s now).1 in
          elim (Option-cases (find_status (logged broker) r id b s now).0) [
            | inl e ↦ rw (sync_open (logged broker) r id b s now k at_s) (rw e found)
            | inr (to, e) ↦
                rw (sync_open (logged broker) r id b s now k at_s)
                  (rw e (close-IsSafe r' id b to found))
          ]
    ]
  ]

  sync_ids-IsSafe :
      (now : Text → T) (ids : List Text) (results : Map Text OrderStatus)
      (r : TradingRuntime P T Δ D (S × List Text))
      → IsSafe r
      → IsSafe (foldl (sync_one (logged broker) now) (results, r) ids).1
  unfolding sync_one
  sync_ids-IsSafe now [] results r h = h
  sync_ids-IsSafe now (id ∷ ids) results r h =
      let (results', r') = sync_one (logged broker) now (results, r) id in
      sync_ids-IsSafe now ids results' r' (sync-IsSafe r id (now id) h)

  recover-IsSafe :
      (r : TradingRuntime P T Δ D (S × List Text)) (pending : Map Text Text) (now : T)
      → IsSafe r
      → IsSafe (recover (logged broker) r pending now).1
  unfolding recover rebuild_portfolio
  recover-IsSafe r pending now h =
      let (g, l) = pending-Grows broker r.world.machine r.world.venue pending [] now in
      once_kept r.world.machine _ r.world.venue.1 _ g l h

module _ {P T Δ D S : Type 0} ⦃d : Decimal P⦄ (c : Chrono T Δ) (broker : Broker P T S) where
  after-IsSafe :
      (checked_at sent_at : ℕ → T) (o : Order P) (sent : List (Order P))
      (r : TradingRuntime P T Δ D (S × List Text))
      (x : Result SubmitError OrderAck × World T (S × List Text))
      → IsOnce broker x.1
      → IsSafe broker (after_submit c (logged broker) checked_at sent_at o sent r x).1
  unfolding after_submit
  after-IsSafe checked_at sent_at o sent r (ok ack, w) h = h
  after-IsSafe checked_at sent_at o sent r (err x, w) h = h

  send-IsSafe :
      (checked_at sent_at : ℕ → T) (o : Order P) (sent : List (Order P))
      (r : TradingRuntime P T Δ D (S × List Text))
      → IsSafe broker r
      → IsSafe broker (send c (logged broker) checked_at sent_at o (sent, r)).1
  send-IsSafe checked_at sent_at o sent r h =
      elim (Result-cases (check_order c r.risk (checked_at r.order_seq) o r.portfolio r.quotes)) [
        | inr (x, k) ↦ rw (send_refused c (logged broker) checked_at sent_at o sent r k) h
        | inl (n, k) ↦ rw (send_cleared c (logged broker) checked_at sent_at o sent r k) (
            after-IsSafe checked_at sent_at o sent r _
              (submit-IsOnce broker r.world o (sent_at r.order_seq) h))
      ]

  intents-IsSafe :
      (checked_at sent_at : ℕ → T) (is : List (OrderIntent P)) (sent : List (Order P))
      (r : TradingRuntime P T Δ D (S × List Text))
      → IsSafe broker r
      → IsSafe broker (foldl (try_intent c (logged broker) checked_at sent_at) (sent, r) is).1
  intents-IsSafe checked_at sent_at [] sent r h = h
  intents-IsSafe checked_at sent_at (i ∷ is) sent r h =
      let (sent', r') = try_intent c (logged broker) checked_at sent_at (sent, r) i in
      intents-IsSafe checked_at sent_at is sent' r' (elim (Result-cases (new_order r i).0) [
        | inr (x, k) ↦ rw (try_bad c (logged broker) checked_at sent_at sent r i k) h
        | inl (o, k) ↦
            rw (try_good c (logged broker) checked_at sent_at sent r i k)
              (send-IsSafe checked_at sent_at o sent (counted r) h)
      ])

module _ {P T Δ D S : Type 0} ⦃d : Decimal P⦄ ⦃e : Eq D⦄ (calendar : Calendar T D) (c : Chrono T Δ)
    (broker : Broker P T S) where
  -- one call
  unfoldable pub act :
      TradingRuntime P T Δ D (S × List Text) → Call P T → TradingRuntime P T Δ D (S × List Text)
  act r (quoted q) = on_quote calendar r q
  act r (cycled checked_at sent_at) = (run_decision_cycle c (logged broker) checked_at sent_at r).1
  act r (synced id now) = (sync_execution (logged broker) r id now).1
  act r (synced_all now) = (sync_all (logged broker) now r).1
  act r (recovered pending now) = (recover (logged broker) r pending now).1

  bar-IsSafe :
      (b : Option (Bar P T)) (r : TradingRuntime P T Δ D (S × List Text))
      → IsSafe broker r
      → IsSafe broker (with_bar calendar b r)
  unfolding with_bar
  bar-IsSafe none r h = h
  bar-IsSafe (some b) r h = h

  act-IsSafe :
      (r : TradingRuntime P T Δ D (S × List Text)) (a : Call P T)
      → IsSafe broker r
      → IsSafe broker (act r a)
  unfolding act on_quote run_decision_cycle sync_all
  act-IsSafe r (quoted q) h =
      let (b, aggregator) = Aggregator.push calendar r.aggregator q in
      bar-IsSafe b (record r { aggregator = aggregator }) h
  act-IsSafe r (cycled checked_at sent_at) h =
      let (decision, l) = decide r.decisions (snapshot r) in
      intents-IsSafe c broker checked_at sent_at decision.intents [] (record r { decisions = l }) h
  act-IsSafe r (synced id now) h = sync-IsSafe broker r id now h
  act-IsSafe r (synced_all now) h =
      sync_ids-IsSafe broker now (map (λ (p : Text × Text). p.0) r.open_local) [] r h
  act-IsSafe r (recovered pending now) h = recover-IsSafe broker r pending now h

  -- If the orders that reached the venue so far are distinct and each has a status, which holds of a
  -- new runtime, then after any sequence of quotes, decision cycles, execution syncs and recoveries,
  -- whatever the venue answers, no order has reached the venue twice.
  pub never_twice :
      (r : TradingRuntime P T Δ D (S × List Text)) (cs : List (Call P T))
      → IsOnce broker r.world
      → Distinct (foldl act r cs).world.venue.1
  never_twice r [] h = h.0
  never_twice r (a ∷ cs) h = never_twice (act r a) cs (act-IsSafe r a h)
