-- ===== src/Runtime/Halt.antt =====
-- What a decision cycle does while the kill switch is active.
use loss_function.Prelude.{ℕ, true, ◌≡◌, refl, inl, inr, List, [], ◌∷◌, foldl, Result-cases}
use loss_function.Decimal.{Decimal}
use loss_function.Domain.Order.{Order}
use loss_function.Broker.{Broker}
use loss_function.Risk.{Chrono, check_order}
use loss_function.Risk.Verdicts.{approved_to}
use loss_function.Strategy.{OrderIntent, decide}
use loss_function.Runtime.{
  TradingRuntime, new_order, send, try_intent, run_decision_cycle, snapshot,
}
use loss_function.Runtime.Cycle.{counted, send_refused, try_bad, try_good}

module _ {P T Δ D S : Type 0} where
  -- Nothing was sent, and what sending would touch is as it was.
  pub record IsIdle (r : TradingRuntime P T Δ D S) (x : List (Order P) × TradingRuntime P T Δ D S)
      : Type 0 where
    pub unsent : x.0 ≡ []
    pub same_world : x.1.world ≡ r.world
    pub same_open : x.1.open_local ≡ r.open_local
    pub same_risk : x.1.risk ≡ r.risk

module _ {P T Δ D S : Type 0} ⦃d : Decimal P⦄ (c : Chrono T Δ) (broker : Broker P T S)
    (checked_at sent_at : ℕ → T) where
  send_killed :
      (o : Order P) (sent : List (Order P)) (r : TradingRuntime P T Δ D S)
      → r.risk.kill.active ≡ true
      → send c broker checked_at sent_at o (sent, r) ≡ (sent, r)
  send_killed o sent r k =
      elim (Result-cases (check_order c r.risk (checked_at r.order_seq) o r.portfolio r.quotes)) [
        | inr (x, h) ↦ send_refused c broker checked_at sent_at o sent r h
        | inl (n, h) ↦
            let (q, off, _, _) =
              approved_to c r.risk (checked_at r.order_seq) o r.portfolio r.quotes n h in
            absurd (cc (k, off))
      ]

  try-IsIdle :
      (r0 r : TradingRuntime P T Δ D S) (sent : List (Order P)) (i : OrderIntent P)
      → r0.risk.kill.active ≡ true
      → IsIdle r0 (sent, r)
      → IsIdle r0 (try_intent c broker checked_at sent_at (sent, r) i)
  try-IsIdle r0 r sent i k h =
      let kept : IsIdle r0 (sent, counted r) = record {
        unsent = h.unsent;
        same_world = h.same_world;
        same_open = h.same_open;
        same_risk = h.same_risk;
      } in
      elim (Result-cases (new_order r i).0) [
        | inr (x, bad) ↦ rw (try_bad c broker checked_at sent_at sent r i bad) kept
        | inl (o, good) ↦
            rw (try_good c broker checked_at sent_at sent r i good)
              (rw (send_killed o sent (counted r) (rw h.same_risk k)) kept)
      ]

  loop-IsIdle :
      (r0 r : TradingRuntime P T Δ D S) (sent : List (Order P)) (is : List (OrderIntent P))
      → r0.risk.kill.active ≡ true
      → IsIdle r0 (sent, r)
      → IsIdle r0 (foldl (try_intent c broker checked_at sent_at) (sent, r) is)
  loop-IsIdle r0 r sent [] k h = h
  loop-IsIdle r0 r sent (i ∷ is) k h =
      let (sent', r') = try_intent c broker checked_at sent_at (sent, r) i in
      loop-IsIdle r0 r' sent' is k (try-IsIdle r0 r sent i k h)

  -- While the kill switch is active, a decision cycle submits nothing, whatever the strategy decides:
  -- the gateway, the machine, the venue and the open orders are as before, and the switch stays on.
  pub killed-IsIdle :
      (r : TradingRuntime P T Δ D S)
      → r.risk.kill.active ≡ true
      → IsIdle r (run_decision_cycle c broker checked_at sent_at r)
  unfolding run_decision_cycle
  killed-IsIdle r k =
      let (decision, l) = decide r.decisions (snapshot r) in
      let started = record r { decisions = l } in
      loop-IsIdle r started [] decision.intents k
        (record { unsent = refl; same_world = refl; same_open = refl; same_risk = refl })
