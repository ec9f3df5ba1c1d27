-- ===== src/Backtest/Summary/Lots.antt =====
-- A sale takes its shares from the lots.
use loss_function.Prelude.{◌≡◌, refl, sym, [], ◌∷◌, All, arith, if◌then◌else◌, Bool-cases, inl, inr}
use loss_function.Prelude.Int.{
  ℤ, pos, ◌+ℤ◌, ◌-ℤ◌, ◌≤ℤ◌, ◌<ℤ◌, ltb_ℤ, leb_ℤ, min_ℤ, InI64, sub_i64, sub_i64_exact, int_laws,
  one_part,
}
use loss_function.Decimal.{Decimal}
use loss_function.Backtest.Summary.{Lots, match_lots}

-- the shares of some lots
abbrev pub shares_of : {P : Type 0} → Lots P → ℤ
shares_of [] = pos 0
shares_of ((quantity, cost) ∷ lots) = quantity +ℤ shares_of lots

-- lots of shares that an i64 can count
abbrev pub IsLot : {P : Type 0} → ℤ × P → Type 0
IsLot (quantity, cost) = (pos 0 <ℤ quantity) × InI64 quantity

difference-InI64 : (a b : ℤ) → InI64 a → pos 0 ≤ℤ b → b ≤ℤ a → InI64 (a -ℤ b)
difference-InI64 a b h p q = record {
  low = omega (int_laws, one_part (a -ℤ b));
  high = omega (int_laws, one_part (a -ℤ b));
}

min_left : (a b : ℤ) → a <ℤ b → min_ℤ a b ≡ a
min_left a b h = ground arith

min_right : (a b : ℤ) → b ≤ℤ a → min_ℤ a b ≡ b
min_right a b h = grind int_laws

module _ {P : Type 0} ⦃d : Decimal P⦄ where
  shares-positive : (lots : Lots P) → All IsLot lots → pos 0 ≤ℤ shares_of lots
  shares-positive [] h = ground arith
  shares-positive ((quantity, cost) ∷ lots) ((h, k), hs) = omega (int_laws, shares-positive lots hs)

  empty_turn : (price pnl : P) (remaining : ℤ) → match_lots price remaining [] pnl ≡ (pnl, [])
  unfolding match_lots
  empty_turn price pnl remaining = refl

  -- the three ways of a turn of the loop
  idle_turn :
      (price pnl : P) (remaining quantity : ℤ) (cost : P) (lots : Lots P)
      → remaining ≤ℤ pos 0
      → match_lots price remaining ((quantity, cost) ∷ lots) pnl ≡ (pnl, (quantity, cost) ∷ lots)
  unfolding match_lots
  idle_turn price pnl remaining quantity cost lots h = ground arith

  popped_turn :
      (price pnl : P) (remaining quantity : ℤ) (cost : P) (lots : Lots P)
      → pos 0 <ℤ remaining
      → quantity ≤ℤ remaining
      → match_lots price remaining ((quantity, cost) ∷ lots) pnl
        ≡ match_lots price
            (sub_i64 remaining quantity)
            lots
            (d.add pnl (d.mul (d.sub price cost) (d.of_int quantity)))
  unfolding match_lots
  popped_turn price pnl remaining quantity cost lots h k = ground arith

  partial_turn :
      (price pnl : P) (remaining quantity : ℤ) (cost : P) (lots : Lots P)
      → pos 0 <ℤ remaining
      → remaining <ℤ quantity
      → match_lots price remaining ((quantity, cost) ∷ lots) pnl ≡ (
        d.add pnl (d.mul (d.sub price cost) (d.of_int remaining)),
        (sub_i64 quantity remaining, cost) ∷ lots,
      )
  unfolding match_lots
  partial_turn price pnl remaining quantity cost lots h k = ground arith

  -- The gain of a sale of some shares at a price, added to an amount: over each lot in turn, as many
  -- shares as are left to sell or the lot has.
  abbrev pub gain_over : P → ℤ → Lots P → P → P
  gain_over price n [] acc = acc
  gain_over price n ((quantity, cost) ∷ lots) acc =
      let m = min_ℤ n quantity in
      let rest =
        gain_over price (n -ℤ m) lots (d.add acc (d.mul (d.sub price cost) (d.of_int m))) in
      if ltb_ℤ (pos 0) n then rest else acc

  gain_spent :
      (price : P) (n : ℤ) (lots : Lots P) (acc : P) → n ≤ℤ pos 0 → gain_over price n lots acc ≡ acc
  gain_spent price n [] acc h = refl
  gain_spent price n ((quantity, cost) ∷ lots) acc h = ground arith

  gain_step :
      (price : P) (n quantity : ℤ) (cost : P) (lots : Lots P) (acc : P)
      → pos 0 <ℤ n
      → gain_over price n ((quantity, cost) ∷ lots) acc
        ≡ gain_over price
            (n -ℤ min_ℤ n quantity)
            lots
            (d.add acc (d.mul (d.sub price cost) (d.of_int (min_ℤ n quantity))))
  gain_step price n quantity cost lots acc h = ground arith

  sale_shares :
      (price pnl : P) (remaining : ℤ) (lots : Lots P)
      → All IsLot lots
      → pos 0 ≤ℤ remaining
      → InI64 remaining
      → (shares_of (match_lots price remaining lots pnl).1
          ≡ shares_of lots -ℤ min_ℤ (shares_of lots) remaining)
        × All IsLot (match_lots price remaining lots pnl).1
  sale_shares price pnl remaining [] h k l =
      rw (empty_turn price pnl remaining) (grind int_laws, tt)
  sale_shares price pnl remaining ((quantity, cost) ∷ lots) ((g, i), hs) k l =
      let rest = shares-positive lots hs in
      elim (Bool-cases (ltb_ℤ (pos 0) remaining)) [
        | inr spent ↦
            rw (idle_turn price pnl remaining quantity cost lots (ground arith))
              (grind (int_laws, rest), ((g, i), hs))
        | inl wanted ↦ elim (Bool-cases (leb_ℤ quantity remaining)) [
          | inl whole_lot ↦
              let exact = sub_i64_exact remaining quantity l (ground arith) (ground arith) in
              let inside = difference-InI64 remaining quantity l (ground arith) (ground arith) in
              let (taken, left) =
                sale_shares price (d.add pnl (d.mul (d.sub price cost) (d.of_int quantity)))
                  (remaining -ℤ quantity) lots hs (grind int_laws) inside in
              rw
                (
                  popped_turn price pnl remaining quantity cost lots (ground arith) (ground arith),
                  exact,
                )
                (grind (int_laws, taken, rest), left)
          | inr part ↦
              let exact = sub_i64_exact quantity remaining i k (ground arith) in
              rw
                (
                  partial_turn price pnl remaining quantity cost lots (ground arith) (ground arith),
                  exact,
                )
                (
                  grind (int_laws, rest),
                  ((grind int_laws, difference-InI64 quantity remaining i k (ground arith)), hs),
                )
        ]
      ]

  sale_gain :
      (price pnl : P) (remaining : ℤ) (lots : Lots P)
      → All IsLot lots
      → pos 0 ≤ℤ remaining
      → InI64 remaining
      → (match_lots price remaining lots pnl).0 ≡ gain_over price remaining lots pnl
  sale_gain price pnl remaining [] h k l = rw (empty_turn price pnl remaining) refl
  sale_gain price pnl remaining ((quantity, cost) ∷ lots) ((g, i), hs) k l =
      elim (Bool-cases (ltb_ℤ (pos 0) remaining)) [
        | inr spent ↦
            rw
              (
                idle_turn price pnl remaining quantity cost lots (ground arith),
                gain_spent price remaining ((quantity, cost) ∷ lots) pnl (ground arith),
              )
              refl
        | inl wanted ↦ elim (Bool-cases (leb_ℤ quantity remaining)) [
          | inl whole_lot ↦
              let exact = sub_i64_exact remaining quantity l (ground arith) (ground arith) in
              let inside = difference-InI64 remaining quantity l (ground arith) (ground arith) in
              rw
                (
                  popped_turn price pnl remaining quantity cost lots (ground arith) (ground arith),
                  exact,
                  gain_step price remaining quantity cost lots pnl (ground arith),
                  min_right remaining quantity (ground arith),
                )
                (sale_gain price (d.add pnl (d.mul (d.sub price cost) (d.of_int quantity)))
                  (remaining -ℤ quantity) lots hs (grind int_laws) inside)
          | inr part ↦
              let gained = d.add pnl (d.mul (d.sub price cost) (d.of_int remaining)) in
              rw
                (
                  partial_turn price pnl remaining quantity cost lots (ground arith) (ground arith),
                  gain_step price remaining quantity cost lots pnl (ground arith),
                  min_left remaining quantity (ground arith),
                )
                (sym (gain_spent price (remaining -ℤ remaining) lots gained (omega int_laws)))
        ]
      ]

  -- A sale takes its shares from the lots of its symbol, or all of them where there are fewer, and what
  -- it leaves are lots again. Its gain is that of the oldest lots: over each in turn, the difference of
  -- the prices on as many shares as are left to sell or the lot has.
  pub sale_takes :
      (price pnl : P) (remaining : ℤ) (lots : Lots P)
      → All IsLot lots
      → pos 0 ≤ℤ remaining
      → InI64 remaining
      → (shares_of (match_lots price remaining lots pnl).1
          ≡ shares_of lots -ℤ min_ℤ (shares_of lots) remaining)
        × All IsLot (match_lots price remaining lots pnl).1
        × ((match_lots price remaining lots pnl).0 ≡ gain_over price remaining lots pnl)
  sale_takes price pnl remaining lots h k l =
      let (shares, left) = sale_shares price pnl remaining lots h k l in
      (shares, left, sale_gain price pnl remaining lots h k l)
