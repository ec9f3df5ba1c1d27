-- ===== src/Strategy/Breakout/Safety.antt =====
-- The decisions of the Donchian breakout.
use loss_function.Prelude.{
  ℕ, zero, suc, ◌+◌, ◌-◌, ◌≤◌, ◌<◌, ◌≡◌, refl, some, List, [], ◌∷◌, foldl, length, length-drop,
  take, drop, All, arith, Option-cases, Bool-cases, inl, inr, ltb, if◌then◌else◌,
}
use loss_function.Prelude.Maps.{lookup, insert_sorted}
use loss_function.Prelude.Text.{text_eq, text_ord, bytes}
use loss_function.Decimal.{Decimal, lt}
use loss_function.Types.{Symbol, symbol_eq}
use loss_function.Strategy.{
  MarketSnapshot, StrategyDecision, Signals, held_shares, label, price_shown,
}
use loss_function.Strategy.Signals.{signalled, decision}
use loss_function.Strategy.Signals.Safety.{IsSafe, signalled-IsSafe}
use loss_function.Strategy.Breakout.{
  DonchianBreakoutStrategy, last_of, highest, lowest, breakout, breakout_loop, breakout_decide,
}

module _ {P : Type 0} ⦃d : Decimal P⦄ where
  -- a window that is not empty has a maximum and a minimum
  extremes :
      (n : ℕ) (xs : List P)
      → 0 < n
      → 0 < length xs
      → (high : P) × (low : P) × (highest (take n xs) ≡ some high) × (lowest (take n xs) ≡ some low)
  unfolding highest lowest
  extremes zero xs h k = absurd (omega arith)
  extremes (suc n) [] h k = absurd (omega arith)
  extremes (suc n) (x ∷ xs) h k = (
    foldl (λ a b. if d.le a b then b else a) x (take n xs),
    foldl (λ a b. if d.le a b then a else b) x (take n xs),
    refl,
    refl,
  )

module _ {P T : Type 0} ⦃d : Decimal P⦄ (b : DonchianBreakoutStrategy)
    (snapshot : MarketSnapshot P T) (long : 0 < b.period) where
  breakout-ranged :
      (s : Symbol) (x : P) (xs : List P) (acc : Signals P) {high low : P}
      → highest (take b.period (drop (length (x ∷ xs) - 1 - b.period) (x ∷ xs))) ≡ some high
      → lowest (take b.period (drop (length (x ∷ xs) - 1 - b.period) (x ∷ xs))) ≡ some low
      → breakout b snapshot s (x ∷ xs) acc
        ≡ some (
          signalled
              (lt high (last_of x xs))
              (lt (last_of x xs) low)
              (held_shares snapshot s)
              b.quantity
              s
              acc.0,
          insert_sorted
              (label s (bytes "prior_low"))
              (price_shown low)
              (insert_sorted (label s (bytes "prior_high")) (price_shown high) acc.1),
        )
  unfolding breakout
  breakout-ranged s x xs (intents, features) h k = ground (arith, h, k)

  breakout-IsSafe :
      (s : Symbol) (closes : List P) (acc : Signals P)
      → b.period + 1 ≤ length closes
      → All (IsSafe snapshot b.quantity) acc.0
      → (next : Signals P) × (breakout b snapshot s closes acc ≡ some next)
        × All (IsSafe snapshot b.quantity) next.0
  unfolding breakout
  breakout-IsSafe s [] acc h k = absurd (omega arith)
  breakout-IsSafe s (x ∷ xs) (intents, features) h k =
      let window = drop (length (x ∷ xs) - 1 - b.period) (x ∷ xs) in
      let (high, low, top, bottom) =
        extremes b.period window long
          (omega (arith, length-drop (length (x ∷ xs) - 1 - b.period) (x ∷ xs))) in
      (
        (
          signalled (lt high (last_of x xs)) (lt (last_of x xs) low) (held_shares snapshot s)
              b.quantity s intents,
          insert_sorted (label s (bytes "prior_low")) (price_shown low)
              (insert_sorted (label s (bytes "prior_high")) (price_shown high) features),
        ),
        breakout-ranged s x xs (intents, features) top bottom,
        signalled-IsSafe snapshot (lt high (last_of x xs)) (lt (last_of x xs) low) b.quantity s
            intents k,
      )

  breakout_loop-IsSafe :
      (ss : List Symbol) (acc : Signals P)
      → All (IsSafe snapshot b.quantity) acc.0
      → (last : Signals P) × (breakout_loop b snapshot ss acc ≡ some last)
        × All (IsSafe snapshot b.quantity) last.0
  unfolding breakout_loop
  breakout_loop-IsSafe [] acc h = (acc, refl, h)
  breakout_loop-IsSafe (s ∷ ss) acc h = elim (Option-cases (lookup s snapshot.history)) [
    | inl gone ↦
        let (last, looped, safe) = breakout_loop-IsSafe ss acc h in
        (last, ground (arith, gone, looped), safe)
    | inr (closes, found) ↦ elim (Bool-cases (ltb (length closes) (b.period + 1))) [
      | inl few ↦
          let (last, looped, safe) = breakout_loop-IsSafe ss acc h in
          (last, ground (arith, found, few, looped), safe)
      | inr many ↦
          let (next, stepped, kept) = breakout-IsSafe s closes acc (ground arith) h in
          let (last, looped, safe) = breakout_loop-IsSafe ss next kept in
          (last, ground (arith, found, many, stepped, looped), safe)
    ]
  ]

  -- With a period of at least one the Donchian breakout always decides, and every intent buys the
  -- configured quantity of a symbol of which nothing is held, or sells shares that are held, at most the
  -- configured quantity.
  pub breakout_decides :
      (answer : StrategyDecision P) × (breakout_decide b snapshot ≡ some answer)
      × All (IsSafe snapshot b.quantity) answer.intents
  unfolding breakout_decide decision
  breakout_decides =
      let (last, looped, safe) = breakout_loop-IsSafe b.symbols ([], []) tt in
      (decision (bytes "donchian-breakout") last, ground (arith, looped), safe)
