-- ===== src/Risk.antt =====
-- rust/lossfunction/src/risk.rs: the checks before every order. The kill switch sits behind a mutex
-- that each call takes and drops; `now` is the clock's reading. The English of `detail` is a value
-- that keeps what its `format!` shows.
pub mod Checks
pub mod Verdicts
use loss_function.Prelude.{
  ℕ, Bool, true, false, Option, none, some, List, [], ◌∷◌, map, Result, ok, err, ◌>>=◌, ◌>>◌,
  unwrap_or, if◌then◌else◌,
}
use loss_function.Prelude.Int.{ℤ, pos, ltb_ℤ, add_i64}
use loss_function.Prelude.Text.{Text, bytes}
use loss_function.Prelude.Maps.{Map, lookup}
use loss_function.Decimal.{Decimal, lt, sum}
use loss_function.Types.{OrderSide, buy, sell, Symbol, symbol_eq, Quote}
use loss_function.Domain.Order.{Order}
use loss_function.Domain.Portfolio.{
  PositionState, Portfolio, position, positions, total_realized_pnl,
}

-- Of chrono the code subtracts instants and compares the spans.
pub record Chrono (T Δ : Type 0) : Type 0 where
  pub since : T → T → Δ
  -- `a <= b`
  pub le : Δ → Δ → Bool
  -- `TimeDelta::from_std(Duration::from_secs(n))`
  pub seconds : ℕ → Δ

pub record RiskLimits (P Δ : Type 0) : Type 0 where
  pub max_order_notional : P
  pub max_position_quantity : ℤ
  pub max_gross_exposure : P
  pub daily_loss_limit : P
  pub stale_quote_max_age : Δ

-- config.rs
pub record RiskSettings : Type 0 where
  pub max_order_notional : ℤ
  pub max_position_quantity : ℤ
  pub gross_exposure : ℤ
  pub daily_loss_limit : ℤ
  pub stale_quote_seconds : ℕ

-- `impl From<RiskSettings> for RiskLimits`; a span out of chrono's range, which panics there, is
-- left to the interface
unfoldable pub from_settings :
    {P T Δ : Type 0} ⦃d : Decimal P⦄ (c : Chrono T Δ) → RiskSettings → RiskLimits P Δ
from_settings ⦃d⦄ c s = record {
  max_order_notional = d.of_int s.max_order_notional;
  max_position_quantity = s.max_position_quantity;
  max_gross_exposure = d.of_int s.gross_exposure;
  daily_loss_limit = d.of_int s.daily_loss_limit;
  stale_quote_max_age = c.seconds s.stale_quote_seconds;
}

pub data RejectionReason : Type 0 where
  kill_switch no_quote stale_market_data order_notional_exceeded position_quantity_exceeded
        gross_exposure_exceeded daily_loss_limit_exceeded :
      RejectionReason

-- `RejectionReason::as_str`
unfoldable pub reason_text : RejectionReason → Text
reason_text kill_switch = bytes "kill_switch"
reason_text no_quote = bytes "no_quote"
reason_text stale_market_data = bytes "stale_market_data"
reason_text order_notional_exceeded = bytes "order_notional_exceeded"
reason_text position_quantity_exceeded = bytes "position_quantity_exceeded"
reason_text gross_exposure_exceeded = bytes "gross_exposure_exceeded"
reason_text daily_loss_limit_exceeded = bytes "daily_loss_limit_exceeded"

-- The arguments of the `format!` of `detail`.
pub data Detail (P Δ : Type 0) : Type 0 where
  about_switch : Text → Detail P Δ
  about_symbol : Symbol → Detail P Δ
  about_age : Symbol → Δ → Δ → Detail P Δ
  about_quantity : Symbol → ℤ → ℤ → Detail P Δ
  about_amount : P → P → Detail P Δ

pub record OrderRejected (P Δ : Type 0) : Type 0 where
  pub reason : RejectionReason
  pub detail : Detail P Δ

pub record KillState : Type 0 where
  pub active : Bool
  pub reason : Option Text

pub record RiskManager (P Δ : Type 0) : Type 0 where
  pub limits : RiskLimits P Δ
  pub kill : KillState

module _ {P Δ : Type 0} where
  -- `RiskManager::new`
  unfoldable pub new : RiskLimits P Δ → RiskManager P Δ
  new limits = record { limits = limits; kill = record { active = false; reason = none } }

  unfoldable pub activate_kill_switch : RiskManager P Δ → Text → RiskManager P Δ
  activate_kill_switch m reason = record m { kill = record { active = true; reason = some reason } }

  unfoldable pub deactivate_kill_switch : RiskManager P Δ → RiskManager P Δ
  deactivate_kill_switch m = record m { kill = record { active = false; reason = none } }

  abbrev pub reject : {A : Type 0} → RejectionReason → Detail P Δ → Result (OrderRejected P Δ) A
  reject r x = err (record { reason = r; detail = x })

  -- a check that passes when its test fails
  abbrev pub reject_if : Bool → RejectionReason → Detail P Δ → Result (OrderRejected P Δ) (Unit {0})
  reject_if b r x = if b then reject r x else ok tt

module _ {P T : Type 0} ⦃d : Decimal P⦄ where
  -- the price at which `gross_exposure` values a position
  unfoldable pub mark : Map Symbol (Quote P T) → PositionState P → P
  mark quotes p = elim (lookup p.symbol quotes) [ none ↦ p.average_price | some q ↦ q.last_price ]

  -- the filtered and mapped positions of `gross_exposure`
  unfoldable pub exposures : Map Symbol (Quote P T) → List (PositionState P) → List P
  exposures quotes [] = []
  exposures quotes (p ∷ ps) =
      let rest = exposures quotes ps in
      if ltb_ℤ (pos 0) p.quantity then d.mul (d.of_int p.quantity) (mark quotes p) ∷ rest else rest

  -- `gross_exposure`
  unfoldable pub gross_exposure : Portfolio P → Map Symbol (Quote P T) → P
  gross_exposure portfolio quotes = sum (exposures quotes (positions portfolio))

  -- the price that an order is valued at
  unfoldable pub order_price : Order P → Quote P T → P
  order_price o q = unwrap_or o.limit_price q.last_price

  unfoldable pub order_notional : Order P → Quote P T → P
  order_notional o q = d.mul (d.of_int o.quantity) (order_price o q)

-- the shares held before the order
unfoldable pub held_quantity : {P : Type 0} → Portfolio P → Symbol → ℤ
held_quantity portfolio s = elim (position portfolio s) [ none ↦ pos 0 | some p ↦ p.quantity ]

module _ {P T Δ : Type 0} ⦃d : Decimal P⦄ (c : Chrono T Δ) where
  -- the checks on buys only
  unfoldable pub check_side :
      OrderSide
      → RiskLimits P Δ
      → Order P
      → Portfolio P
      → Map Symbol (Quote P T)
      → P
      → Result (OrderRejected P Δ) (Unit {0})
  check_side sell limits o portfolio quotes notional = ok tt
  check_side buy limits o portfolio quotes notional =
      let projected = add_i64 (held_quantity portfolio o.symbol) o.quantity in
      let gross_after = d.add (gross_exposure portfolio quotes) notional in
      reject_if (ltb_ℤ limits.max_position_quantity projected) position_quantity_exceeded
        (about_quantity o.symbol projected limits.max_position_quantity)
      >> reject_if (lt limits.max_gross_exposure gross_after) gross_exposure_exceeded
          (about_amount gross_after limits.max_gross_exposure)

  -- the checks after a quote is found
  unfoldable pub check_quoted :
      RiskLimits P Δ
      → T
      → Order P
      → Portfolio P
      → Map Symbol (Quote P T)
      → Quote P T
      → Result (OrderRejected P Δ) P
  check_quoted limits now o portfolio quotes quote =
      let age = c.since now quote.timestamp in
      let notional = order_notional o quote in
      let realized = total_realized_pnl portfolio in
      if c.le age limits.stale_quote_max_age
      then (reject_if (lt limits.max_order_notional notional) order_notional_exceeded
            (about_amount notional limits.max_order_notional)
          >> check_side o.side limits o portfolio quotes notional
          >> reject_if (lt realized (d.neg limits.daily_loss_limit)) daily_loss_limit_exceeded
              (about_amount realized limits.daily_loss_limit)
          >> ok notional)
      else reject stale_market_data (about_age o.symbol age limits.stale_quote_max_age)

  -- `RiskManager::check_order`
  unfoldable pub check_order :
      RiskManager P Δ
      → T
      → Order P
      → Portfolio P
      → Map Symbol (Quote P T)
      → Result (OrderRejected P Δ) P
  check_order m now o portfolio quotes =
      if m.kill.active
      then reject kill_switch (about_switch (unwrap_or m.kill.reason []))
      else elim (lookup o.symbol quotes) [
        | none ↦ reject no_quote (about_symbol o.symbol)
        | some quote ↦ check_quoted m.limits now o portfolio quotes quote
      ]
