-- ===== src/Risk/Checks.antt =====
-- The limits, stated apart from the ladder of checks, and when an order passes.
use loss_function.Prelude.{true, ◌≡◌, refl, some, ok, arith}
use loss_function.Prelude.Int.{◌≤ℤ◌, add_i64}
use loss_function.Prelude.Maps.{Map, lookup}
use loss_function.Decimal.{Decimal}
use loss_function.Types.{OrderSide, buy, sell, Symbol, symbol_eq, Quote}
use loss_function.Domain.Order.{Order}
use loss_function.Domain.Portfolio.{Portfolio, total_realized_pnl}
use loss_function.Risk.{
  Chrono, RiskLimits, held_quantity, gross_exposure, order_notional, check_side, check_quoted,
}

module _ {P T Δ : Type 0} ⦃d : Decimal P⦄ (c : Chrono T Δ) (limits : RiskLimits P Δ) (now : T)
    (o : Order P) (portfolio : Portfolio P) (quotes : Map Symbol (Quote P T)) where
  -- The quote is no older than allowed.
  abbrev pub IsFresh : Quote P T → Type 0
  IsFresh q = c.le (c.since now q.timestamp) limits.stale_quote_max_age ≡ true

  -- The order's value is no larger than allowed.
  abbrev pub IsSmall : Quote P T → Type 0
  IsSmall q = d.le (order_notional o q) limits.max_order_notional ≡ true

  -- The shares held after the order are no more than allowed.
  abbrev pub HasRoom : Type 0
  HasRoom = add_i64 (held_quantity portfolio o.symbol) o.quantity ≤ℤ limits.max_position_quantity

  -- The value of all positions and of the order is no larger than allowed.
  abbrev pub IsCovered : Quote P T → Type 0
  IsCovered q =
      d.le (d.add (gross_exposure portfolio quotes) (order_notional o q)) limits.max_gross_exposure
      ≡ true

  -- What is asked of buys alone.
  abbrev pub IsAffordable : OrderSide → Quote P T → Type 0
  IsAffordable buy q = HasRoom × IsCovered q
  IsAffordable sell q = Unit

  -- The realized loss is no larger than allowed.
  abbrev pub IsSolvent : Type 0
  IsSolvent = d.le (d.neg limits.daily_loss_limit) (total_realized_pnl portfolio) ≡ true

  -- An order that is within every limit at a quote.
  pub record IsWithin (q : Quote P T) : Type 0 where
    pub found : lookup o.symbol quotes ≡ some q
    pub fresh : IsFresh q
    pub small : IsSmall q
    pub affordable : IsAffordable o.side q
    pub solvent : IsSolvent

  side_to :
      (side : OrderSide) (q : Quote P T)
      → check_side c side limits o portfolio quotes (order_notional o q) ≡ ok tt
      → IsAffordable side q
  unfolding check_side
  side_to buy q h = (ground arith, ground arith)
  side_to sell q h = tt

  pub side_from :
      (side : OrderSide) (q : Quote P T)
      → IsAffordable side q
      → check_side c side limits o portfolio quotes (order_notional o q) ≡ ok tt
  unfolding check_side
  side_from buy q h = ground (arith, h.0, h.1)
  side_from sell q h = refl

  pub quoted_to :
      (q : Quote P T) (n : P)
      → lookup o.symbol quotes ≡ some q
      → check_quoted c limits now o portfolio quotes q ≡ ok n
      → IsWithin q × (n ≡ order_notional o q)
  unfolding check_quoted
  quoted_to q n e h = (
    record {
      found = e;
      fresh = ground arith;
      small = ground arith;
      affordable = side_to o.side q (ground arith);
      solvent = ground arith;
    },
    ground arith,
  )

  pub quoted_from :
      (q : Quote P T)
      → IsWithin q
      → check_quoted c limits now o portfolio quotes q ≡ ok (order_notional o q)
  unfolding check_quoted
  quoted_from q h = ground (arith, side_from o.side q h.affordable, h.fresh, h.small, h.solvent)
