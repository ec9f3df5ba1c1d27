-- ===== src/Domain/Portfolio/Positions.antt =====
-- What one fill does to the positions.
use loss_function.Prelude.{
  ◌≡◌, ◌≢◌, Option, none, some, ok, err, bind_succeeds, arith, if◌then◌else◌,
}
use loss_function.Prelude.Int.{
  ℤ, pos, ◌+ℤ◌, ◌-ℤ◌, ◌≤ℤ◌, ◌<ℤ◌, InI64, add_i64, sub_i64, add_i64_exact, sub_i64_exact, int_laws,
}
use loss_function.Prelude.Maps.{lookup-insert_sorted}
use loss_function.Prelude.Keys.{beq_refl, beq_ne}
use loss_function.Decimal.{Decimal}
use loss_function.Types.{OrderSide, buy, sell, Symbol, symbol_eq, symbol_ord}
use loss_function.Domain.{insufficient_position}
use loss_function.Domain.Portfolio.{
  Fill, PositionState, Portfolio, position, put, bought, sold, fill_entry, apply_fill,
}

-- The shares of a position, 0 where there is none.
abbrev pub shares : {P : Type 0} → Option (PositionState P) → ℤ
shares none = pos 0
shares (some s) = s.quantity

zero_add : (a : ℤ) → pos 0 +ℤ a ≡ a
zero_add a = omega int_laws

-- What a side does to a number of shares.
abbrev pub moved : OrderSide → ℤ → ℤ → ℤ
moved buy held quantity = add_i64 held quantity
moved sell held quantity = sub_i64 held quantity

module _ {P : Type 0} ⦃d : Decimal P⦄ where
  pub position-put :
      (j s : Symbol) (v : PositionState P) (p : Portfolio P)
      → position (put s v p) j ≡ (if symbol_eq.beq j s then some v else position p j)
  unfolding position put
  position-put j s v p = lookup-insert_sorted j s v p.entries

  position-put_self :
      (s : Symbol) (v : PositionState P) (p : Portfolio P) → position (put s v p) s ≡ some v
  position-put_self s v p = rw (position-put s s v p) (rw (beq_refl s))

  -- A fill that succeeds stores what its side makes of the old position.
  apply_fill_inv :
      (p : Portfolio P) (f : Fill P) {q : Portfolio P}
      → apply_fill p f ≡ ok q
      → (v : PositionState P) × (fill_entry f.side f (position p f.symbol) ≡ ok v)
        × (q ≡ put f.symbol v p)
  unfolding apply_fill
  apply_fill_inv p f h =
      let (v, stored, e) = bind_succeeds (fill_entry f.side f (position p f.symbol)) _ _ h in
      (v, e, ground arith)

  -- A fill that succeeds leaves the positions of all other symbols alone.
  pub apply_fill_others :
      (p : Portfolio P) (f : Fill P) (s : Symbol) {q : Portfolio P}
      → apply_fill p f ≡ ok q
      → s ≢ f.symbol
      → position q s ≡ position p s
  apply_fill_others p f s {q} h ne =
      let (v, e, stored) = apply_fill_inv p f h in
      rw stored (rw (position-put s f.symbol v p) (rw (beq_ne s f.symbol ne)))

  fill_entry-moved :
      (side : OrderSide) (f : Fill P) (entry : Option (PositionState P)) (v : PositionState P)
      → InI64 f.quantity
      → fill_entry side f entry ≡ ok v
      → v.quantity ≡ moved side (shares entry) f.quantity
  unfolding fill_entry bought sold
  fill_entry-moved buy f none v i h =
      ground (arith, add_i64_exact (pos 0) f.quantity, zero_add f.quantity)
  fill_entry-moved buy f (some w) v i h = ground arith
  fill_entry-moved sell f none v i h = cc
  fill_entry-moved sell f (some w) v i h = ground arith

  -- After a fill that succeeds each symbol holds the shares it held, but the fill's own symbol holds
  -- them moved by the fill's quantity.
  pub shares-apply_fill :
      (p : Portfolio P) (f : Fill P) (j : Symbol) {q : Portfolio P}
      → InI64 f.quantity
      → apply_fill p f ≡ ok q
      → shares (position q j) ≡ (
          if symbol_eq.beq j f.symbol
          then moved f.side (shares (position p f.symbol)) f.quantity
          else shares (position p j))
  shares-apply_fill p f j {q} i h =
      let (v, e, stored) = apply_fill_inv p f h in
      rw stored (
        rw (position-put j f.symbol v p)
          (ground (arith, fill_entry-moved f.side f (position p f.symbol) v i e)))

  -- A sale that succeeds was covered.
  pub sell_covered :
      (p : Portfolio P) (f : Fill P) {q : Portfolio P}
      → f.side ≡ sell
      → apply_fill p f ≡ ok q
      → f.quantity ≤ℤ shares (position p f.symbol)
  unfolding fill_entry sold
  sell_covered p f s h = ground (arith, apply_fill_inv p f h)

  -- A sale of more than is held is refused, with the shares asked for and the shares held.
  pub oversell_refused :
      (p : Portfolio P) (f : Fill P)
      → f.side ≡ sell
      → shares (position p f.symbol) <ℤ f.quantity
      → apply_fill p f
        ≡ err (insufficient_position f.symbol.text f.quantity (shares (position p f.symbol)))
  unfolding apply_fill fill_entry sold
  oversell_refused p f s h = ground arith

  abbrev sold_state : Fill P → PositionState P → PositionState P
  sold_state f v = record {
    symbol = f.symbol;
    quantity = v.quantity -ℤ f.quantity;
    average_price = v.average_price;
    realized_pnl =
        d.add v.realized_pnl (d.mul (d.sub f.price v.average_price) (d.of_int f.quantity));
  }

  -- A sale of a quantity that is not negative and is held, with the position a value of an i64,
  -- succeeds: it takes exactly those shares, keeps the average price and books the profit against
  -- it.
  pub sell_books_profit :
      (p : Portfolio P) (f : Fill P) (v : PositionState P)
      → f.side ≡ sell
      → position p f.symbol ≡ some v
      → InI64 v.quantity
      → pos 0 ≤ℤ f.quantity
      → f.quantity ≤ℤ v.quantity
      → (q : Portfolio P) × (apply_fill p f ≡ ok q)
        × (position q f.symbol
            ≡ some (record {
              symbol = f.symbol;
              quantity = v.quantity -ℤ f.quantity;
              average_price = v.average_price;
              realized_pnl =
                  d.add v.realized_pnl
                    (d.mul (d.sub f.price v.average_price) (d.of_int f.quantity));
            }))
  unfolding apply_fill fill_entry sold
  sell_books_profit p f v s e i n h = (
    put f.symbol (sold_state f v) p,
    ground (arith, sub_i64_exact v.quantity f.quantity i n h),
    position-put_self f.symbol (sold_state f v) p,
  )

  -- A buy always succeeds, on an empty position at the fill's price and on an old one at the
  -- average over both, and books no profit.
  pub buy_blends :
      (p : Portfolio P) (f : Fill P)
      → f.side ≡ buy
      → (q : Portfolio P) × (apply_fill p f ≡ ok q)
        × (position q f.symbol ≡ some (bought f (position p f.symbol)))
  unfolding apply_fill fill_entry
  buy_blends p f b =
      let w = bought f (position p f.symbol) in
      (put f.symbol w p, ground arith, position-put_self f.symbol w p)
