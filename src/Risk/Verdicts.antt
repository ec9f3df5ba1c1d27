-- ===== src/Risk/Verdicts.antt =====
-- When an order is approved, and for which reason one is rejected.
use loss_function.Prelude.{
  true, false, ◌≡◌, refl, ◌≢◌, ◌↔◌, inl, inr, Option, none, some, Result, ok, err, arith,
  Option-cases,
}
use loss_function.Prelude.Int.{◌<ℤ◌, add_i64}
use loss_function.Prelude.Text.{Text}
use loss_function.Prelude.Maps.{Map, lookup}
use loss_function.Decimal.{Decimal}
use loss_function.Types.{buy, sell, Symbol, symbol_eq, Quote}
use loss_function.Domain.Order.{Order}
use loss_function.Domain.Portfolio.{Portfolio, total_realized_pnl}
use loss_function.Risk.{
  Chrono, RiskManager, RejectionReason, kill_switch, no_quote, stale_market_data,
  order_notional_exceeded, position_quantity_exceeded, gross_exposure_exceeded,
  daily_loss_limit_exceeded, OrderRejected, held_quantity, gross_exposure, order_notional,
  check_side, check_quoted, check_order, activate_kill_switch, deactivate_kill_switch,
}
use loss_function.Risk.Checks.{
  IsFresh, IsSmall, HasRoom, IsAffordable, IsWithin, quoted_to, quoted_from, side_from,
}

-- The reason of a rejection.
abbrev pub reason_of : {P Δ : Type 0} → Result (OrderRejected P Δ) P → Option RejectionReason
reason_of (ok n) = none
reason_of (err x) = some x.reason

module _ {P T Δ : Type 0} ⦃d : Decimal P⦄ (c : Chrono T Δ) (m : RiskManager P Δ) (now : T)
    (o : Order P) (portfolio : Portfolio P) (quotes : Map Symbol (Quote P T)) where
  pub approved_to :
      (n : P)
      → check_order c m now o portfolio quotes ≡ ok n
      → (q : Quote P T) × (m.kill.active ≡ false)
        × IsWithin c m.limits now o portfolio quotes q
        × (n ≡ order_notional o q)
  unfolding check_order
  approved_to n h = elim (Option-cases (lookup o.symbol quotes)) [
    | inl missing ↦ absurd (ground arith)
    | inr (q, e) ↦
        let (within, value) = quoted_to c m.limits now o portfolio quotes q n e (ground arith) in
        (q, ground arith, within, value)
  ]

  approved_from :
      (n : P) (q : Quote P T)
      → m.kill.active ≡ false
      → IsWithin c m.limits now o portfolio quotes q
      → n ≡ order_notional o q
      → check_order c m now o portfolio quotes ≡ ok n
  unfolding check_order
  approved_from n q k w e =
      ground (arith, w.found, quoted_from c m.limits now o portfolio quotes q w)

  -- An order is approved exactly if the kill switch is off and the order is within every limit at
  -- the quote of its symbol; the answer is its value at its limit price, or at the quote.
  pub approved_exact :
      (n : P)
      → (check_order c m now o portfolio quotes ≡ ok n) ↔ (
          (q : Quote P T) × (m.kill.active ≡ false)
          × IsWithin c m.limits now o portfolio quotes q
          × (n ≡ order_notional o q))
  approved_exact n = (approved_to n, λ h. approved_from n h.0 h.1 h.2 h.3)

  -- The first check that fails, in the order of the source.
  pub data Fires : RejectionReason → Type 0 where
    switched_off : m.kill.active ≡ true → Fires kill_switch
    unquoted : m.kill.active ≡ false → lookup o.symbol quotes ≡ none → Fires no_quote
    stale :
        (q : Quote P T)
        → m.kill.active ≡ false
        → lookup o.symbol quotes ≡ some q
        → c.le (c.since now q.timestamp) m.limits.stale_quote_max_age ≡ false
        → Fires stale_market_data
    too_large :
        (q : Quote P T)
        → m.kill.active ≡ false
        → lookup o.symbol quotes ≡ some q
        → IsFresh c m.limits now o portfolio quotes q
        → d.le (order_notional o q) m.limits.max_order_notional ≡ false
        → Fires order_notional_exceeded
    too_many :
        (q : Quote P T)
        → m.kill.active ≡ false
        → lookup o.symbol quotes ≡ some q
        → IsFresh c m.limits now o portfolio quotes q
        → IsSmall c m.limits now o portfolio quotes q
        → o.side ≡ buy
        → m.limits.max_position_quantity <ℤ add_i64 (held_quantity portfolio o.symbol) o.quantity
        → Fires position_quantity_exceeded
    too_exposed :
        (q : Quote P T)
        → m.kill.active ≡ false
        → lookup o.symbol quotes ≡ some q
        → IsFresh c m.limits now o portfolio quotes q
        → IsSmall c m.limits now o portfolio quotes q
        → o.side ≡ buy
        → HasRoom c m.limits now o portfolio quotes
        → d.le
            (d.add (gross_exposure portfolio quotes) (order_notional o q))
            m.limits.max_gross_exposure
          ≡ false
        → Fires gross_exposure_exceeded
    too_much_lost :
        (q : Quote P T)
        → m.kill.active ≡ false
        → lookup o.symbol quotes ≡ some q
        → IsFresh c m.limits now o portfolio quotes q
        → IsSmall c m.limits now o portfolio quotes q
        → IsAffordable c m.limits now o portfolio quotes o.side q
        → d.le (d.neg m.limits.daily_loss_limit) (total_realized_pnl portfolio) ≡ false
        → Fires daily_loss_limit_exceeded

  -- If a check fails and all the checks before it pass, the order is rejected for the reason of
  -- that check.
  pub rejected_for :
      {r : RejectionReason} → Fires r → reason_of (check_order c m now o portfolio quotes) ≡ some r
  unfolding check_order check_quoted check_side
  rejected_for (switched_off k) = ground arith
  rejected_for (unquoted k e) = ground arith
  rejected_for (stale q k e f) = ground arith
  rejected_for (too_large q k e f s) = ground arith
  rejected_for (too_many q k e f s b g) = ground arith
  rejected_for (too_exposed q k e f s b g v) = ground arith
  rejected_for (too_much_lost q k e f s a l) =
      ground (arith, side_from c m.limits now o portfolio quotes o.side q a)

-- A sale is never held up by the caps on positions and exposure.
pub sales_uncapped :
    {P T Δ : Type 0} ⦃d : Decimal P⦄ (c : Chrono T Δ) (m : RiskManager P Δ) (now : T) (o : Order P)
    (portfolio : Portfolio P) (quotes : Map Symbol (Quote P T))
    → o.side ≡ sell
    → (reason_of (check_order c m now o portfolio quotes) ≢ some position_quantity_exceeded)
      × (reason_of (check_order c m now o portfolio quotes) ≢ some gross_exposure_exceeded)
unfolding check_order check_quoted check_side
sales_uncapped c m now o portfolio quotes s = (λ h. ground arith, λ h. ground arith)

-- Switching the kill switch on blocks every order; switching it off again brings back the decisions
-- of a manager whose switch was off.
pub switch_restored :
    {P T Δ : Type 0} ⦃d : Decimal P⦄ (c : Chrono T Δ) (m : RiskManager P Δ) (why : Text) (now : T)
    (o : Order P) (portfolio : Portfolio P) (quotes : Map Symbol (Quote P T))
    → m.kill.active ≡ false
    → (reason_of (check_order c (activate_kill_switch m why) now o portfolio quotes)
        ≡ some kill_switch)
      × (check_order c (deactivate_kill_switch (activate_kill_switch m why)) now o portfolio quotes
          ≡ check_order c m now o portfolio quotes)
unfolding check_order activate_kill_switch deactivate_kill_switch
switch_restored c m why now o portfolio quotes k = (refl, ground arith)
