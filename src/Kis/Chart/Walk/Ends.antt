-- ===== src/Kis/Chart/Walk/Ends.antt =====
-- The work stack of `daily_bars` runs empty.
use loss_function.Prelude.{
  ℕ, zero, suc, ◌+◌, ◌≤◌, ◌<◌, Bool, true, false, ◌≡◌, refl, Option, none, some, is_some, List, [],
  ◌∷◌, ◌++◌, Result, ok, err, arith, Bool-cases, Result-cases, inl, inr, length, ltb,
}
use loss_function.MarketData.{Bar}
use loss_function.MarketData.Aggregator.{Calendar}
use loss_function.MarketData.Backfill.{MarketDataError}
use loss_function.Kis.Chart.{Window}
use loss_function.Kis.Chart.Walk.{
  middle, lower, upper, splits, walk, weight, windows, finish, daily_bars,
}

-- A split takes one from the fuel.
split_weight :
    (n : ℕ) (w : Window) (ws : List Window)
    → splits n w ≡ true
    → weight (upper w ∷ lower w ∷ ws) + 1 ≡ weight (w ∷ ws)
unfolding splits upper lower middle
split_weight n w ws h = let below : w.start < w.stop = ground arith in omega arith

module _ {P T E S : Type 0}
    (fetch : S → Window → Result (MarketDataError E) (List (Bar P T)) × S) where
  walk_failed :
      (fuel : ℕ) (w : Window) (ws : List Window) (all : List (Bar P T)) (s : S)
      {e : MarketDataError E}
      → (fetch s w).0 ≡ err e
      → walk fetch (suc fuel) (w ∷ ws) all s ≡ (some (err e), (fetch s w).1)
  unfolding walk
  walk_failed fuel w ws all s h = ground (arith, h)

  walk_split :
      (fuel : ℕ) (w : Window) (ws : List Window) (all : List (Bar P T)) (s : S)
      {bars : List (Bar P T)}
      → (fetch s w).0 ≡ ok bars
      → splits (length bars) w ≡ true
      → walk fetch (suc fuel) (w ∷ ws) all s
        ≡ walk fetch fuel (upper w ∷ lower w ∷ ws) all (fetch s w).1
  unfolding walk
  walk_split fuel w ws all s h k = ground (arith, h, k)

  walk_kept :
      (fuel : ℕ) (w : Window) (ws : List Window) (all : List (Bar P T)) (s : S)
      {bars : List (Bar P T)}
      → (fetch s w).0 ≡ ok bars
      → splits (length bars) w ≡ false
      → walk fetch (suc fuel) (w ∷ ws) all s ≡ walk fetch fuel ws (all ++ bars) (fetch s w).1
  unfolding walk
  walk_kept fuel w ws all s h k = ground (arith, h, k)

  walk_ends :
      (fuel : ℕ) (ws : List Window) (all : List (Bar P T)) (s : S)
      → weight ws ≤ fuel
      → is_some (walk fetch fuel ws all s).0 ≡ true
  unfolding walk
  walk_ends fuel [] all s h = refl
  walk_ends zero (w ∷ ws) all s h = absurd (omega arith)
  walk_ends (suc fuel) (w ∷ ws) all s h = elim (Result-cases (fetch s w).0) [
    | inr (e, bad) ↦ rw (walk_failed fuel w ws all s bad) refl
    | inl (bars, good) ↦ elim (Bool-cases (splits (length bars) w)) [
      | inl full ↦ rw (walk_split fuel w ws all s good full) (
          walk_ends fuel (upper w ∷ lower w ∷ ws) all (fetch s w).1
            (omega (arith, split_weight (length bars) w ws full)))
      | inr part ↦
          rw (walk_kept fuel w ws all s good part)
            (walk_ends fuel ws (all ++ bars) (fetch s w).1 (omega arith))
    ]
  ]

module _ {P T E : Type 0} (before same : T → T → Bool) where
  finish_ends :
      (from to : T) (x : Option (Result (MarketDataError E) (List (Bar P T))))
      → is_some x ≡ true
      → is_some (finish before same from to x) ≡ true
  unfolding finish
  finish_ends from to none h = h
  finish_ends from to (some (err e)) h = refl
  finish_ends from to (some (ok all)) h = refl

module _ {P T E S : Type 0} (calendar : Calendar T ℕ) (before same : T → T → Bool)
    (fetch : S → Window → Result (MarketDataError E) (List (Bar P T)) × S) where
  -- Fetching daily bars ends, whatever the pages hold and whichever of them fail: a full page is
  -- fetched again in halves, and the fuel of twice the days is enough for that.
  pub daily_bars_ends :
      (s : S) (from to : T) → is_some (daily_bars calendar before same fetch s from to).0 ≡ true
  unfolding daily_bars
  daily_bars_ends s from to =
      let stack = windows (calendar.date_naive from) (calendar.date_naive to) in
      let ended =
        finish_ends before same from to (walk fetch (weight stack) stack [] s).0
          (walk_ends fetch (weight stack) stack [] s (omega arith)) in
      elim (Bool-cases (ltb (calendar.date_naive to) (calendar.date_naive from))) [
        | inl backwards ↦ rw backwards refl
        | inr forwards ↦ rw forwards ended
      ]
