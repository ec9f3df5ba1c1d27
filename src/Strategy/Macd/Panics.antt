-- ===== src/Strategy/Macd/Panics.antt =====
-- The MACD crossover has no panic by an index or a period of zero on sensible periods.
use loss_function.Prelude.{
  ℕ, ◌+◌, ◌-◌, ◌≤◌, ◌<◌, Bool, ◌&&◌, ◌≡◌, refl, Option, none, some, List, [], ◌∷◌, length, take,
  drop, length-drop, get_elem?-inside, arith, Bool-cases, inl, inr, ltb, leb, is_some,
}
use loss_function.Prelude.Int.{pos}
use loss_function.Decimal.{Decimal, sum, lt}
use loss_function.Types.{symbol_eq}
use loss_function.Strategy.Macd.{
  MacdCrossStrategy, ema_from, ema_series, differences, crossing, signal_cross, cross,
}

module _ {P : Type 0} ⦃d : Decimal P⦄ where
  length-ema_from :
      (alpha previous : P) (xs : List P) → length (ema_from alpha previous xs) ≡ length xs
  unfolding ema_from
  length-ema_from alpha previous [] = refl
  length-ema_from alpha previous (x ∷ xs) =
      omega (
        arith,
        length-ema_from alpha (d.add (d.mul alpha x) (d.mul (d.sub d.one alpha) previous)) xs,
      )

  -- an average has a value for each close from the end of the first period on
  ema_series-length :
      (xs : List P) (period : ℕ)
      → 0 < period
      → period ≤ length xs
      → (ys : List P) × (ema_series xs period ≡ some ys) × (length ys + period ≡ length xs + 1)
  unfolding ema_series
  ema_series-length xs period h k =
      let alpha = d.div (d.of_int (pos 2)) (d.of_int (pos (period + 1))) in
      let seed = d.div (sum (take period xs)) (d.of_int (pos period)) in
      (
        seed ∷ ema_from alpha seed (drop period xs),
        ground arith,
        omega (arith, length-ema_from alpha seed (drop period xs), length-drop period xs),
      )

  differences-length :
      (fast : List P) (offset : ℕ) (slow : List P)
      → offset + length slow ≤ length fast
      → (ys : List P) × (differences fast offset slow ≡ some ys) × (length ys ≡ length slow)
  unfolding differences
  differences-length fast offset [] h = ([], refl, refl)
  differences-length fast offset (s ∷ ss) h =
      let (value, found) = get_elem?-inside fast offset (omega arith) in
      let (rest, known, same) = differences-length fast (offset + 1) ss (omega arith) in
      (d.sub value s ∷ rest, ground (arith, found, known), omega (arith, same))

  crossing-defined :
      (macd signals : List P)
      → 2 ≤ length macd
      → 2 ≤ length signals
      → (r : Bool × Bool) × (crossing macd signals ≡ some (some r))
  unfolding crossing
  crossing-defined macd signals h k =
      let (a, now) = get_elem?-inside macd (length macd - 1) (omega arith) in
      let (b, then_now) = get_elem?-inside signals (length signals - 1) (omega arith) in
      let (c, prev) = get_elem?-inside macd (length macd - 2) (omega arith) in
      let (e, then_prev) = get_elem?-inside signals (length signals - 2) (omega arith) in
      ((d.le c e && lt b a, d.le e c && lt a b), ground (arith, now, then_now, prev, then_prev))

  signal_cross-defined :
      (signal : ℕ) (macd : List P)
      → 0 < signal
      → signal + 1 ≤ length macd
      → (r : Bool × Bool) × (signal_cross signal macd ≡ some (some r))
  unfolding signal_cross
  signal_cross-defined signal macd h k =
      let (signals, averaged, same) = ema_series-length macd signal h (omega arith) in
      let (r, crossed) = crossing-defined macd signals (omega arith) (omega (arith, same)) in
      (r, ground (arith, averaged, crossed))

  cross-short :
      (m : MacdCrossStrategy) (closes : List P)
      → length closes < m.slow + m.signal
      → cross m closes ≡ some none
  unfolding cross
  cross-short m closes h = ground arith

  cross-long :
      (m : MacdCrossStrategy) (closes : List P)
      → 0 < m.fast
      → m.fast ≤ m.slow
      → 0 < m.signal
      → m.slow + m.signal ≤ length closes
      → (r : Bool × Bool) × (cross m closes ≡ some (some r))
  unfolding cross
  cross-long m closes h k l long =
      let (fast, quick, same_fast) = ema_series-length closes m.fast h (omega arith) in
      let (slow, steady, same_slow) = ema_series-length closes m.slow (omega arith) (omega arith) in
      let (macd, subtracted, same) =
        differences-length fast (length fast - length slow) slow
          (omega (arith, same_fast, same_slow)) in
      let (r, crossed) = signal_cross-defined m.signal macd l (omega (arith, same, same_slow)) in
      (r, ground (arith, quick, steady, subtracted, crossed, same_fast, same_slow))

  -- With periods of at least one, the fast one not above the slow one, `cross` has no such panic, and it
  -- answers exactly from `slow + signal` closes on.
  pub cross_ready :
      (m : MacdCrossStrategy) (closes : List P)
      → 0 < m.fast
      → m.fast ≤ m.slow
      → 0 < m.signal
      → (r : Option (Bool × Bool)) × (cross m closes ≡ some r)
        × (is_some r ≡ leb (m.slow + m.signal) (length closes))
  cross_ready m closes h k l = elim (Bool-cases (ltb (length closes) (m.slow + m.signal))) [
    | inl few ↦ (none, cross-short m closes (ground arith), ground arith)
    | inr many ↦ let (r, e) = cross-long m closes h k l (ground arith) in (some r, e, ground arith)
  ]
