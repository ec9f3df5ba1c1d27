-- ===== src/Domain/Portfolio.antt =====
-- rust/lossfunction/src/domain/portfolio.rs: positions aggregated over fills. `positions` is a
-- `BTreeMap<Symbol, PositionState>`. `apply_fill` works on a clone and returns it, so an error
-- leaves the caller's portfolio as it is.
pub mod Positions
pub mod Netting
use loss_function.Prelude.{
  Option, none, some, List, [], ◌∷◌, map, Result, ok, err, ◌>>=◌, if◌then◌else◌,
}
use loss_function.Prelude.Int.{ℤ, pos, ltb_ℤ, add_i64, sub_i64}
use loss_function.Prelude.Text.{Text}
use loss_function.Prelude.Maps.{Map, values, lookup, insert_sorted}
use loss_function.Decimal.{Decimal, sum}
use loss_function.Types.{OrderSide, buy, sell, Symbol, symbol_eq, symbol_ord}
use loss_function.Domain.{DomainError, insufficient_position, blended_average}

pub record Fill (P : Type 0) : Type 0 where
  pub client_order_id : Text
  pub symbol : Symbol
  pub side : OrderSide
  pub quantity : ℤ
  pub price : P

pub record PositionState (P : Type 0) : Type 0 where
  pub symbol : Symbol
  pub quantity : ℤ
  pub average_price : P
  pub realized_pnl : P

pub record Portfolio (P : Type 0) : Type 0 where
  pub entries : Map Symbol (PositionState P)

module _ {P : Type 0} where
  -- `Portfolio::new`
  abbrev pub empty : Portfolio P
  empty = record { entries = [] }

  -- `Portfolio::position`
  unfoldable pub position : Portfolio P → Symbol → Option (PositionState P)
  position p s = lookup s p.entries

  -- `Portfolio::positions`
  unfoldable pub positions : Portfolio P → List (PositionState P)
  positions p = values p.entries

  -- `positions.insert`
  unfoldable pub put : Symbol → PositionState P → Portfolio P → Portfolio P
  put s state p = record { entries = insert_sorted s state p.entries }

module _ {P : Type 0} ⦃d : Decimal P⦄ where
  -- `Portfolio::total_realized_pnl`
  unfoldable pub total_realized_pnl : Portfolio P → P
  unfolding positions
  total_realized_pnl p = sum (map (λ (s : PositionState P). s.realized_pnl) (positions p))

  -- the `OrderSide::Buy` arm of `apply_fill`
  unfoldable pub bought : Fill P → Option (PositionState P) → PositionState P
  bought fill none = record {
    symbol = fill.symbol;
    quantity = fill.quantity;
    average_price = fill.price;
    realized_pnl = d.zero;
  }
  bought fill (some current) = record {
    symbol = fill.symbol;
    quantity = add_i64 current.quantity fill.quantity;
    average_price = blended_average current.quantity current.average_price fill.quantity fill.price;
    realized_pnl = current.realized_pnl;
  }

  -- the `OrderSide::Sell` arm
  unfoldable pub sold : Fill P → Option (PositionState P) → Result DomainError (PositionState P)
  sold fill none = err (insufficient_position fill.symbol.text fill.quantity (pos 0))
  sold fill (some current) =
      if ltb_ℤ current.quantity fill.quantity
      then err (insufficient_position fill.symbol.text fill.quantity current.quantity)
      else let realized = d.mul (d.sub fill.price current.average_price) (d.of_int fill.quantity) in
        ok (record {
          symbol = fill.symbol;
          quantity = sub_i64 current.quantity fill.quantity;
          average_price = current.average_price;
          realized_pnl = d.add current.realized_pnl realized;
        })

  -- the `match fill.side`
  unfoldable pub fill_entry :
      OrderSide → Fill P → Option (PositionState P) → Result DomainError (PositionState P)
  fill_entry buy fill entry = ok (bought fill entry)
  fill_entry sell fill entry = sold fill entry

  -- `Portfolio::apply_fill`
  unfoldable pub apply_fill : Portfolio P → Fill P → Result DomainError (Portfolio P)
  apply_fill p fill = do
    updated ← fill_entry fill.side fill (position p fill.symbol)
    ok (put fill.symbol updated p)

  -- A run of fills, each applied to the portfolio that the one before it returned.
  unfoldable pub apply_fills : Portfolio P → List (Fill P) → Result DomainError (Portfolio P)
  apply_fills p [] = ok p
  apply_fills p (f ∷ fs) = do q ← apply_fill p f; apply_fills q fs
