-- ===== src/Backtest/Summary.antt =====
-- rust/lossfunction/src/backtest.rs: the summary of a run. `before` is the order of instants.
pub mod Lots
pub mod Counts
use loss_function.Prelude.{
  ℕ, ◌+◌, Bool, true, false, not, Option, none, some, List, [], ◌∷◌, ◌++◌, foldl, unwrap_or, ◌==◌,
  if◌then◌else◌,
}
use loss_function.Prelude.Int.{ℤ, pos, ltb_ℤ, leb_ℤ, sub_i64}
use loss_function.Prelude.Maps.{Map, lookup, insert}
use loss_function.Decimal.{Decimal, lt, is_zero}
use loss_function.Types.{buy, sell, Symbol, symbol_eq}
use loss_function.Backtest.{FillRecord, BacktestResult}

pub record Metrics (P : Type 0) : Type 0 where
  pub final_equity : P
  pub return_pct : P
  pub mdd_pct : P
  pub trades : ℕ
  pub wins : ℕ
  pub win_rate_pct : P
  pub total_commission : P
  pub total_tax : P

-- The lots of a symbol, the oldest first: the shares and what each cost.
abbrev pub Lots : Type 0 → Type 0
Lots P = List (ℤ × P)

-- the lots and the counters of the loop over the fills
pub record Trips (P : Type 0) : Type 0 where
  pub lots : Map Symbol (Lots P)
  pub trades : ℕ
  pub wins : ℕ

module _ {P T : Type 0} where
  -- `sort_by` on instants, stable
  unfoldable pub slot_fill :
      (T → T → Bool) → FillRecord P T → List (FillRecord P T) → List (FillRecord P T)
  slot_fill before f [] = f ∷ []
  slot_fill before f (g ∷ gs) =
      let rest = slot_fill before f gs in
      if before g.timestamp f.timestamp then g ∷ rest else f ∷ g ∷ gs

  unfoldable pub chronological : (T → T → Bool) → List (FillRecord P T) → List (FillRecord P T)
  chronological before [] = []
  chronological before (f ∷ fs) = slot_fill before f (chronological before fs)

module _ {P : Type 0} ⦃d : Decimal P⦄ where
  -- one turn of the loop over the equity curve: the peak and the largest drawdown
  unfoldable pub drawdown_step : P × P → P → P × P
  drawdown_step (peak, mdd) equity =
      let top = if lt peak equity then equity else peak in
      if is_zero top
      then (top, mdd)
      else let drawdown = d.div (d.mul (d.sub top equity) (d.of_int (pos 100))) top in
        (top, if lt mdd drawdown then drawdown else mdd)

  -- the loop `while remaining > 0` of a sale at a price; an empty queue ends it
  unfoldable pub match_lots : P → ℤ → Lots P → P → P × Lots P
  match_lots price remaining [] pnl = (pnl, [])
  match_lots price remaining ((quantity, cost) ∷ lots) pnl =
      let gain : ℤ → P = λ n. d.add pnl (d.mul (d.sub price cost) (d.of_int n)) in
      let popped = match_lots price (sub_i64 remaining quantity) lots (gain quantity) in
      if ltb_ℤ (pos 0) remaining
      then if leb_ℤ quantity remaining
        then popped
        else (gain remaining, (sub_i64 quantity remaining, cost) ∷ lots)
      else (pnl, (quantity, cost) ∷ lots)

  -- the queue of a symbol, `entry(..).or_default()`
  unfoldable pub lots_of : Trips P → Symbol → Lots P
  lots_of t s = unwrap_or (lookup s t.lots) []

module _ {P T : Type 0} ⦃d : Decimal P⦄ where
  -- one turn of the loop over the fills
  unfoldable pub trip_step : Trips P → FillRecord P T → Trips P
  trip_step t f = elim f.side [
    | buy ↦ record t {
      lots = insert f.symbol (lots_of t f.symbol ++ (f.quantity, f.price) ∷ []) t.lots;
    }
    | sell ↦
        let (pnl, lots) = match_lots f.price f.quantity (lots_of t f.symbol) d.zero in
        record {
          lots = insert f.symbol lots t.lots;
          trades = t.trades + 1;
          wins = if lt d.zero pnl then t.wins + 1 else t.wins;
        }
  ]

  unfoldable pub trips : List (FillRecord P T) → Trips P
  trips fills = foldl trip_step (record { lots = []; trades = 0; wins = 0 }) fills

  -- `summarize`
  unfoldable pub summarize : (T → T → Bool) → BacktestResult P T → P → Metrics P
  summarize before result initial_cash =
      let hundred = d.of_int (pos 100) in
      let (peak, mdd) =
        foldl (λ acc (p : T × P). drawdown_step acc (p.1)) (initial_cash, d.zero)
          result.equity_curve in
      let t = trips (chronological before result.fills) in
      record {
        final_equity = result.equity;
        return_pct =
            if is_zero initial_cash
            then d.zero
            else d.div (d.mul (d.sub result.equity initial_cash) hundred) initial_cash;
        mdd_pct = mdd;
        trades = t.trades;
        wins = t.wins;
        win_rate_pct =
            if t.trades == 0
            then d.zero
            else d.div (d.mul (d.of_int (pos t.wins)) hundred) (d.of_int (pos t.trades));
        total_commission = result.total_commission;
        total_tax = result.total_tax;
      }
