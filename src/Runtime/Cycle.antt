-- ===== src/Runtime/Cycle.antt =====
-- What one decision cycle leaves open.
use loss_function.Prelude.{
  ℕ, ◌+◌, ◌%◌, ◌^◌, ◌≡◌, refl, ◌∙◌, inl, inr, List, [], ◌∷◌, foldl, Result, ok, err, All, arith,
  Result-cases,
}
use loss_function.Prelude.Text.{text_eq}
use loss_function.Decimal.{Decimal}
use loss_function.Domain.{DomainError}
use loss_function.Domain.Order.{Order}
use loss_function.Domain.Order.Shape.{IsShaped, new-IsShaped}
use loss_function.Broker.{OrderAck, Broker}
use loss_function.Execution.Gateway.{World, submit, SubmitError}
use loss_function.Risk.{Chrono, OrderRejected, check_order}
use loss_function.Strategy.{OrderIntent, decide}
use loss_function.Strategy.Entry.{All-snoc}
use loss_function.Runtime.{
  TradingRuntime, new_order, after_submit, send, try_intent, run_decision_cycle, snapshot,
}

module _ {P T Δ D S : Type 0} where
  -- the runtime that has used up one more number
  abbrev pub counted : TradingRuntime P T Δ D S → TradingRuntime P T Δ D S
  counted r = record r { order_seq = (r.order_seq + 1) % 2 ^ 64 }

  -- What a cycle does not touch.
  pub record SameBooks (r r' : TradingRuntime P T Δ D S) : Type 0 where
    pub same_risk : r'.risk ≡ r.risk
    pub same_portfolio : r'.portfolio ≡ r.portfolio
    pub same_quotes : r'.quotes ≡ r.quotes
    pub same_prefix : r'.order_prefix ≡ r.order_prefix

  pub same_trans :
      {r r' r'' : TradingRuntime P T Δ D S} → SameBooks r r' → SameBooks r' r'' → SameBooks r r''
  same_trans h k = record {
    same_risk = k.same_risk ∙ h.same_risk;
    same_portfolio = k.same_portfolio ∙ h.same_portfolio;
    same_quotes = k.same_quotes ∙ h.same_quotes;
    same_prefix = k.same_prefix ∙ h.same_prefix;
  }

module _ {P T Δ D S : Type 0} ⦃d : Decimal P⦄ (c : Chrono T Δ) where
  -- An order that was checked against these books, and is well shaped.
  abbrev pub IsCleared : TradingRuntime P T Δ D S → Order P → Type 0
  IsCleared r o =
      (now : T) × (n : P) × (check_order c r.risk now o r.portfolio r.quotes ≡ ok n) × IsShaped o

  -- The state of the loop: cleared orders, on the books of the start.
  abbrev IsClear : TradingRuntime P T Δ D S → List (Order P) × TradingRuntime P T Δ D S → Type 0
  IsClear r (sent, r') = All (IsCleared r) sent × SameBooks r r'

module _ {P T Δ D S : Type 0} ⦃d : Decimal P⦄ (c : Chrono T Δ) (broker : Broker P T S)
    (checked_at sent_at : ℕ → T) where
  after-IsClear :
      (r0 r : TradingRuntime P T Δ D S) (o : Order P) (sent : List (Order P))
      (x : Result SubmitError OrderAck × World T S)
      → IsClear c r0 (sent, r)
      → IsCleared c r0 o
      → IsClear c r0 (after_submit c broker checked_at sent_at o sent r x)
  unfolding after_submit
  after-IsClear r0 r o sent (ok ack, w) (h, s) k = (
    All-snoc (IsCleared c r0) sent o h k,
    same_trans s (record {
      same_risk = refl;
      same_portfolio = refl;
      same_quotes = refl;
      same_prefix = refl;
    }),
  )
  after-IsClear r0 r o sent (err x, w) (h, s) k = (
    h,
    same_trans s (record {
      same_risk = refl;
      same_portfolio = refl;
      same_quotes = refl;
      same_prefix = refl;
    }),
  )

  pub send_refused :
      (o : Order P) (sent : List (Order P)) (r : TradingRuntime P T Δ D S) {x : OrderRejected P Δ}
      → check_order c r.risk (checked_at r.order_seq) o r.portfolio r.quotes ≡ err x
      → send c broker checked_at sent_at o (sent, r) ≡ (sent, r)
  unfolding send
  send_refused o sent r h = ground (arith, h)

  pub send_cleared :
      (o : Order P) (sent : List (Order P)) (r : TradingRuntime P T Δ D S) {n : P}
      → check_order c r.risk (checked_at r.order_seq) o r.portfolio r.quotes ≡ ok n
      → send c broker checked_at sent_at o (sent, r)
        ≡ after_submit c broker checked_at sent_at o sent r
            (submit broker r.world o (sent_at r.order_seq))
  unfolding send
  send_cleared o sent r h = ground (arith, h)

  send-IsClear :
      (r0 r : TradingRuntime P T Δ D S) (o : Order P) (sent : List (Order P))
      → IsClear c r0 (sent, r)
      → IsShaped o
      → IsClear c r0 (send c broker checked_at sent_at o (sent, r))
  send-IsClear r0 r o sent (h, s) v =
      elim (Result-cases (check_order c r.risk (checked_at r.order_seq) o r.portfolio r.quotes)) [
        | inr (x, refused) ↦ rw (send_refused o sent r refused) (h, s)
        | inl (n, cleared) ↦ rw (send_cleared o sent r cleared) (
            after-IsClear r0 r o sent _ (h, s)
              (
                checked_at r.order_seq,
                n,
                rw (s.same_risk, s.same_portfolio, s.same_quotes) at cleared,
                v,
              ))
      ]

  pub try_bad :
      (sent : List (Order P)) (r : TradingRuntime P T Δ D S) (i : OrderIntent P) {x : DomainError}
      → (new_order r i).0 ≡ err x
      → try_intent c broker checked_at sent_at (sent, r) i ≡ (sent, counted r)
  unfolding try_intent new_order
  try_bad sent r i h = ground (arith, h)

  pub try_good :
      (sent : List (Order P)) (r : TradingRuntime P T Δ D S) (i : OrderIntent P) {o : Order P}
      → (new_order r i).0 ≡ ok o
      → try_intent c broker checked_at sent_at (sent, r) i
        ≡ send c broker checked_at sent_at o (sent, counted r)
  unfolding try_intent new_order
  try_good sent r i h = ground (arith, h)

  pub made-IsShaped :
      (r : TradingRuntime P T Δ D S) (i : OrderIntent P) {o : Order P}
      → (new_order r i).0 ≡ ok o
      → IsShaped o
  unfolding new_order
  made-IsShaped r i h = (new-IsShaped _ i.symbol i.side i.order_type i.quantity i.limit_price h).5

  try-IsClear :
      (r0 r : TradingRuntime P T Δ D S) (sent : List (Order P)) (i : OrderIntent P)
      → IsClear c r0 (sent, r)
      → IsClear c r0 (try_intent c broker checked_at sent_at (sent, r) i)
  try-IsClear r0 r sent i (h, s) =
      let kept : IsClear c r0 (sent, counted r) = (
        h,
        same_trans s (record {
          same_risk = refl;
          same_portfolio = refl;
          same_quotes = refl;
          same_prefix = refl;
        }),
      ) in
      elim (Result-cases (new_order r i).0) [
        | inr (x, bad) ↦ rw (try_bad sent r i bad) kept
        | inl (o, good) ↦
            rw (try_good sent r i good)
              (send-IsClear r0 (counted r) o sent kept (made-IsShaped r i good))
      ]

  loop-IsClear :
      (r0 r : TradingRuntime P T Δ D S) (sent : List (Order P)) (is : List (OrderIntent P))
      → IsClear c r0 (sent, r)
      → IsClear c r0 (foldl (try_intent c broker checked_at sent_at) (sent, r) is)
  loop-IsClear r0 r sent [] h = h
  loop-IsClear r0 r sent (i ∷ is) h =
      let (sent', r') = try_intent c broker checked_at sent_at (sent, r) i in
      loop-IsClear r0 r' sent' is (try-IsClear r0 r sent i h)

  -- Every order that a decision cycle has acknowledged is well shaped and was approved by the risk checks,
  -- against the portfolio and the quotes at the start of the cycle; the cycle changes neither.
  pub acknowledged-IsCleared :
      (r : TradingRuntime P T Δ D S)
      → let (sent, r') = run_decision_cycle c broker checked_at sent_at r in
        All (IsCleared c r) sent × (r'.portfolio ≡ r.portfolio) × (r'.quotes ≡ r.quotes)
  unfolding run_decision_cycle
  acknowledged-IsCleared r =
      let (decision, l) = decide r.decisions (snapshot r) in
      let (h, s) =
        loop-IsClear r (record r { decisions = l }) [] decision.intents
          (
            tt,
            record {
              same_risk = refl;
              same_portfolio = refl;
              same_quotes = refl;
              same_prefix = refl;
            },
          ) in
      (h, s.same_portfolio, s.same_quotes)
