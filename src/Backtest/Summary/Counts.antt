-- ===== src/Backtest/Summary/Counts.antt =====
-- The trades and the wins of a summary.
use loss_function.Prelude.{
  ℕ, suc, ◌+◌, ◌≡◌, refl, Bool, false, List, [], ◌∷◌, ◌++◌, foldl, unwrap_or, All, arith,
  if◌then◌else◌,
}
use loss_function.Prelude.Maps.{Map, lookup, insert}
use loss_function.Decimal.{Decimal, lt}
use loss_function.Types.{OrderSide, buy, sell, Symbol, symbol_eq}
use loss_function.Backtest.{FillRecord, BacktestResult}
use loss_function.Backtest.Summary.{
  Trips, Lots, match_lots, lots_of, slot_fill, chronological, trip_step, trips, summarize,
}

-- how many of some fills are sales
abbrev pub one_sale : OrderSide → ℕ
one_sale buy = 0
one_sale sell = 1

module _ {P T : Type 0} where
  abbrev pub sales : List (FillRecord P T) → ℕ
  sales [] = 0
  sales (f ∷ fs) = one_sale f.side + sales fs

  -- no later fill has an instant before that of an earlier one
  abbrev pub IsChronological : (T → T → Bool) → List (FillRecord P T) → Type 0
  IsChronological before [] = Unit
  IsChronological before (f ∷ fs) =
      All (λ (g : FillRecord P T). before g.timestamp f.timestamp ≡ false) fs
      × IsChronological before fs

  slot_first :
      (before : T → T → Bool) (f : FillRecord P T) (gs : List (FillRecord P T))
      → All (λ (g : FillRecord P T). before g.timestamp f.timestamp ≡ false) gs
      → slot_fill before f gs ≡ f ∷ gs
  unfolding slot_fill
  slot_first before f [] h = refl
  slot_first before f (g ∷ gs) (h, hs) = rw h refl

  chronological_kept :
      (before : T → T → Bool) (fs : List (FillRecord P T))
      → IsChronological before fs
      → chronological before fs ≡ fs
  unfolding chronological
  chronological_kept before [] h = refl
  chronological_kept before (f ∷ fs) (h, hs) =
      rw (chronological_kept before fs hs) (slot_first before f fs h)

module _ {P : Type 0} ⦃d : Decimal P⦄ where
  -- how many of some amounts are above zero
  abbrev pub positives : List P → ℕ
  positives [] = 0
  positives (x ∷ xs) = if lt d.zero x then suc (positives xs) else positives xs

module _ {P T : Type 0} ⦃d : Decimal P⦄ where
  -- The gain of each sale in turn, from the lots that the purchases before it left.
  abbrev pub gains : Map Symbol (Lots P) → List (FillRecord P T) → List P
  gains lots [] = []
  gains lots (f ∷ fs) =
      let held = unwrap_or (lookup f.symbol lots) [] in
      let (gain, left) = match_lots f.price f.quantity held d.zero in
      let bought = gains (insert f.symbol (held ++ (f.quantity, f.price) ∷ []) lots) fs in
      let sold = gains (insert f.symbol left lots) fs in
      elim f.side [ buy ↦ bought | sell ↦ gain ∷ sold ]

  all_trades :
      (t : Trips P) (fs : List (FillRecord P T))
      → (foldl trip_step t fs).trades ≡ sales fs + t.trades
  unfolding trip_step
  all_trades t [] = omega arith
  all_trades t (f ∷ fs) = ground (arith, all_trades (trip_step t f) fs)

  all_wins :
      (t : Trips P) (fs : List (FillRecord P T))
      → (foldl trip_step t fs).wins ≡ positives (gains t.lots fs) + t.wins
  unfolding trip_step lots_of
  all_wins t [] = omega arith
  all_wins t (f ∷ fs) = ground (arith, all_wins (trip_step t f) fs)

  -- The summary of a run whose fills are in chronological order counts each sale as a trade, whether
  -- or not it matches the lots that were bought, and as a win exactly the sales whose gain over the lots
  -- of the purchases before them is positive.
  pub summary_counts :
      (before : T → T → Bool) (result : BacktestResult P T) (initial_cash : P)
      → IsChronological before result.fills
      → ((summarize before result initial_cash).trades ≡ sales result.fills)
        × ((summarize before result initial_cash).wins ≡ positives (gains [] result.fills))
  unfolding summarize trips
  summary_counts before result initial_cash h =
      let fresh : Trips P = record { lots = []; trades = 0; wins = 0 } in
      rw (chronological_kept before result.fills h)
        (omega (arith, all_trades fresh result.fills), omega (arith, all_wins fresh result.fills))
