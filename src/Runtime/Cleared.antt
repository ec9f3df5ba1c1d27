-- ===== src/Runtime/Cleared.antt =====
-- What reaches the venue in one decision cycle.
use loss_function.Prelude.{
  ℕ, ◌≡◌, refl, inl, inr, List, [], ◌∷◌, ◌++◌, foldl, Result, ok, err, All, Result-cases,
}
use loss_function.Prelude.Text.{text_eq, padded}
use loss_function.Decimal.{Decimal}
use loss_function.Domain.Order.{Order}
use loss_function.Domain.Order.Shape.{IsShaped, new-IsShaped}
use loss_function.Broker.{OrderRequest, OrderAck, Broker}
use loss_function.Execution.Gateway.{World, SubmitError, submit, request_of}
use loss_function.Execution.Gateway.Submission.{duplicate_refused, fresh_settled}
use loss_function.Execution.Gateway.Once.{IsKnown-or_fresh}
use loss_function.Risk.{Chrono, check_order}
use loss_function.Strategy.{OrderIntent, decide}
use loss_function.Runtime.{
  TradingRuntime, new_order, after_submit, send, try_intent, run_decision_cycle, snapshot,
}
use loss_function.Runtime.Cycle.{
  SameBooks, same_trans, counted, send_cleared, send_refused, try_bad, try_good, made-IsShaped,
}

module _ {P T S : Type 0} (broker : Broker P T S) where
  -- The venue, with the requests that reach it, the latest first.
  abbrev pub recorded : Broker P T (S × List (OrderRequest P))
  recorded = record {
    submit_order =
        λ (s, log) r. let (answer, s') = broker.submit_order s r in (answer, (s', r ∷ log));
    cancel_order =
        λ (s, log) id. let (answer, s') = broker.cancel_order s id in (answer, (s', log));
    execution_report =
        λ (s, log) id. let (answer, s') = broker.execution_report s id in (answer, (s', log));
    positions = λ (s, log). let (answer, s') = broker.positions s in (answer, (s', log));
    quote = λ (s, log) x. let (answer, s') = broker.quote s x in (answer, (s', log));
  }

  -- a submission sends its own order or nothing
  submit-log :
      (Q : OrderRequest P → Type 0) (w : World T (S × List (OrderRequest P))) (o : Order P)
      (now : T)
      → All Q w.venue.1
      → Q (request_of o)
      → All Q (submit recorded w o now).1.venue.1
  submit-log Q w o now h k = elim (IsKnown-or_fresh w o.client_order_id) [
    | inl known ↦ rw (duplicate_refused recorded w o now known) h
    | inr (c, s) ↦ rw ((fresh_settled recorded w o now c s).2) (k, h)
  ]

module _ {P T Δ D S : Type 0} ⦃d : Decimal P⦄ (c : Chrono T Δ) (checked_at : ℕ → T) where
  -- A request of a well shaped order with some number of the runtime, which the risk checks approved
  -- against these books, at their clock's reading for that number.
  abbrev pub IsApproved : TradingRuntime P T Δ D S → OrderRequest P → Type 0
  IsApproved r q =
      (n : ℕ) × (o : Order P) × (x : P) × (q ≡ request_of o)
      × (o.client_order_id ≡ r.order_prefix ++ (45 ∷ padded n))
      × (check_order c r.risk (checked_at n) o r.portfolio r.quotes ≡ ok x)
      × IsShaped o

module _ {P T Δ D S : Type 0} ⦃d : Decimal P⦄ (c : Chrono T Δ) (broker : Broker P T S)
    (checked_at sent_at : ℕ → T) (r0 : TradingRuntime P T Δ D (S × List (OrderRequest P))) where
  -- the loop's state: approved requests, on the books of the start
  abbrev IsHeld : List (Order P) × TradingRuntime P T Δ D (S × List (OrderRequest P)) → Type 0
  IsHeld (sent, r) = All (IsApproved c checked_at r0) r.world.venue.1 × SameBooks r0 r

  after-IsHeld :
      (o : Order P) (sent : List (Order P)) (r : TradingRuntime P T Δ D (S × List (OrderRequest P)))
      (x : Result SubmitError OrderAck × World T (S × List (OrderRequest P)))
      → All (IsApproved c checked_at r0) x.1.venue.1
      → SameBooks r0 r
      → IsHeld (after_submit c (recorded broker) checked_at sent_at o sent r x)
  unfolding after_submit
  after-IsHeld o sent r (ok ack, w) h s = (
    h,
    same_trans s (record {
      same_risk = refl;
      same_portfolio = refl;
      same_quotes = refl;
      same_prefix = refl;
    }),
  )
  after-IsHeld o sent r (err e, w) h s = (
    h,
    same_trans s (record {
      same_risk = refl;
      same_portfolio = refl;
      same_quotes = refl;
      same_prefix = refl;
    }),
  )

  send-IsHeld :
      (o : Order P) (sent : List (Order P)) (r : TradingRuntime P T Δ D (S × List (OrderRequest P)))
      → IsHeld (sent, r)
      → IsShaped o
      → o.client_order_id ≡ r0.order_prefix ++ (45 ∷ padded r.order_seq)
      → IsHeld (send c (recorded broker) checked_at sent_at o (sent, r))
  send-IsHeld o sent r (h, s) v named =
      elim (Result-cases (check_order c r.risk (checked_at r.order_seq) o r.portfolio r.quotes)) [
        | inr (x, refused) ↦
            rw (send_refused c (recorded broker) checked_at sent_at o sent r refused) (h, s)
        | inl (x, cleared) ↦
            rw (send_cleared c (recorded broker) checked_at sent_at o sent r cleared) (
              after-IsHeld o sent r (submit (recorded broker) r.world o (sent_at r.order_seq))
                (submit-log broker (IsApproved c checked_at r0) r.world o (sent_at r.order_seq) h (
                  r.order_seq,
                  o,
                  x,
                  refl,
                  named,
                  rw (s.same_risk, s.same_portfolio, s.same_quotes) at cleared,
                  v,
                ))
                s)
      ]

  made_named :
      (r : TradingRuntime P T Δ D (S × List (OrderRequest P))) (i : OrderIntent P) {o : Order P}
      → (new_order r i).0 ≡ ok o
      → o.client_order_id ≡ r.order_prefix ++ (45 ∷ padded (counted r).order_seq)
  unfolding new_order
  made_named r i h = (new-IsShaped _ i.symbol i.side i.order_type i.quantity i.limit_price h).2

  try-IsHeld :
      (sent : List (Order P)) (r : TradingRuntime P T Δ D (S × List (OrderRequest P)))
      (i : OrderIntent P)
      → IsHeld (sent, r)
      → IsHeld (try_intent c (recorded broker) checked_at sent_at (sent, r) i)
  try-IsHeld sent r i (h, s) =
      let kept : IsHeld (sent, counted r) = (
        h,
        same_trans s (record {
          same_risk = refl;
          same_portfolio = refl;
          same_quotes = refl;
          same_prefix = refl;
        }),
      ) in
      elim (Result-cases (new_order r i).0) [
        | inr (x, bad) ↦ rw (try_bad c (recorded broker) checked_at sent_at sent r i bad) kept
        | inl (o, good) ↦ rw (try_good c (recorded broker) checked_at sent_at sent r i good) (
            send-IsHeld o sent (counted r) kept
              (made-IsShaped c (recorded broker) checked_at sent_at r i good)
              (rw s.same_prefix at (made_named r i good)))
      ]

  loop-IsHeld :
      (is : List (OrderIntent P)) (sent : List (Order P))
      (r : TradingRuntime P T Δ D (S × List (OrderRequest P)))
      → IsHeld (sent, r)
      → IsHeld (foldl (try_intent c (recorded broker) checked_at sent_at) (sent, r) is)
  loop-IsHeld [] sent r h = h
  loop-IsHeld (i ∷ is) sent r h =
      let (sent', r') = try_intent c (recorded broker) checked_at sent_at (sent, r) i in
      loop-IsHeld is sent' r' (try-IsHeld sent r i h)

  -- Every request that reaches the venue during a decision cycle, whatever the venue answers, is that of
  -- a well shaped order with a number of the runtime, which the risk checks approved at their clock's
  -- reading for that number, against the risk limits, the portfolio and the quotes at the start of the
  -- cycle; and the cycle changes none of these.
  pub cycle-IsCleared :
      r0.world.venue.1 ≡ []
      → let r' = (run_decision_cycle c (recorded broker) checked_at sent_at r0).1 in
        All (IsApproved c checked_at r0) r'.world.venue.1
        × (r'.risk ≡ r0.risk)
        × (r'.portfolio ≡ r0.portfolio)
        × (r'.quotes ≡ r0.quotes)
  unfolding run_decision_cycle
  cycle-IsCleared quiet =
      let (decision, l) = decide r0.decisions (snapshot r0) in
      let (h, s) =
        loop-IsHeld decision.intents [] (record r0 { decisions = l })
          (
            rw quiet tt,
            record {
              same_risk = refl;
              same_portfolio = refl;
              same_quotes = refl;
              same_prefix = refl;
            },
          ) in
      (h, s.same_risk, s.same_portfolio, s.same_quotes)
