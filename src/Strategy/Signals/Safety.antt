-- ===== src/Strategy/Signals/Safety.antt =====
-- What the three strategies have in common: no sale without shares.
use loss_function.Prelude.{
  Bool, ◌&&◌, ◌≡◌, refl, List, [], ◌∷◌, foldl, All, arith, inl, inr, ◌⊎◌, Bool-cases, Option-cases,
}
use loss_function.Prelude.Int.{ℤ, pos, ◌≤ℤ◌, ◌<ℤ◌, eqb_ℤ, ltb_ℤ}
use loss_function.Prelude.Maps.{lookup}
use loss_function.Decimal.{Decimal, lt}
use loss_function.Types.{Symbol, symbol_eq, OrderSide, buy, sell}
use loss_function.Strategy.{MarketSnapshot, OrderIntent, Signals, held_shares}
use loss_function.Strategy.Entry.{All-snoc}
use loss_function.Strategy.Signals.{
  SmaCrossStrategy, RsiReversionStrategy, intent, signalled, decision, cross, rsi, cross_step,
  cross_decide, rsi_step, rsi_decide,
}

module _ {P T : Type 0} (snapshot : MarketSnapshot P T) where
  -- A buy opens a position with the whole quantity; a sale is of shares that are held, and at most
  -- of the quantity.
  abbrev pub IsCoveredBy : ℤ → OrderSide → OrderIntent P → Type 0
  IsCoveredBy quantity buy i = (held_shares snapshot i.symbol ≡ pos 0) × (i.quantity ≡ quantity)
  IsCoveredBy quantity sell i =
      (pos 0 <ℤ held_shares snapshot i.symbol)
      × (i.quantity ≤ℤ held_shares snapshot i.symbol)
      × (i.quantity ≤ℤ quantity)

  abbrev pub IsSafe : ℤ → OrderIntent P → Type 0
  IsSafe quantity i = IsCoveredBy quantity i.side i

  pub signalled-IsSafe :
      (up down : Bool) (quantity : ℤ) (s : Symbol) (intents : List (OrderIntent P))
      → All (IsSafe quantity) intents
      → All (IsSafe quantity) (signalled up down (held_shares snapshot s) quantity s intents)
  unfolding signalled intent
  signalled-IsSafe up down quantity s intents h =
      elim (Bool-cases (up && eqb_ℤ (held_shares snapshot s) (pos 0))) [
        | inl buys ↦ rw buys (All-snoc (IsSafe quantity) intents _ h (ground arith, refl))
        | inr out ↦ elim (Bool-cases (down && ltb_ℤ (pos 0) (held_shares snapshot s))) [
          | inl sells ↦
              rw (out, sells)
                (All-snoc (IsSafe quantity) intents _ h (ground arith, ground arith, ground arith))
          | inr idle ↦ rw (out, idle) h
        ]
      ]

module _ {P T : Type 0} ⦃d : Decimal P⦄ (snapshot : MarketSnapshot P T) where
  -- What one turn does to the intents: nothing, or the signals of some pair of tests.
  abbrev pub IsTurn : ℤ → (Signals P → Symbol → Signals P) → Type 0
  IsTurn quantity step =
      (acc : Signals P) (s : Symbol)
      → ((step acc s).0 ≡ acc.0)
        ⊎ ((up : Bool) × (down : Bool) × ((step acc s).0
              ≡ signalled up down (held_shares snapshot s) quantity s acc.0))

  cross_step-IsTurn : (c : SmaCrossStrategy) → IsTurn c.quantity (cross_step c snapshot)
  unfolding cross_step
  cross_step-IsTurn c (intents, features) s = elim (Option-cases (lookup s snapshot.history)) [
    | inl gone ↦ inl (ground (arith, gone))
    | inr (closes, found) ↦ elim (Option-cases (cross closes c.fast_period c.slow_period)) [
      | inl short ↦ inl (ground (arith, found, short))
      | inr ((golden, dead), crossed) ↦ inr (golden, dead, ground (arith, found, crossed))
    ]
  ]

  rsi_step-IsTurn : (r : RsiReversionStrategy P) → IsTurn r.quantity (rsi_step r snapshot)
  unfolding rsi_step
  rsi_step-IsTurn r (intents, features) s = elim (Option-cases (lookup s snapshot.history)) [
    | inl gone ↦ inl (ground (arith, gone))
    | inr (closes, found) ↦ elim (Option-cases (rsi closes r.period)) [
      | inl short ↦ inl (ground (arith, found, short))
      | inr (value, known) ↦
          inr (lt value r.oversold, lt r.overbought value, ground (arith, found, known))
    ]
  ]

  turn-IsSafe :
      (quantity : ℤ) (step : Signals P → Symbol → Signals P) (acc : Signals P) (s : Symbol)
      → IsTurn quantity step
      → All (IsSafe snapshot quantity) acc.0
      → All (IsSafe snapshot quantity) (step acc s).0
  turn-IsSafe quantity step acc s k h = elim (k acc s) [
    | inl e ↦ rw e h
    | inr (up, down, e) ↦ rw e (signalled-IsSafe snapshot up down quantity s acc.0 h)
  ]

  -- the loop of a strategy keeps what each of its turns keeps
  pub loop-IsSafe :
      (quantity : ℤ) (step : Signals P → Symbol → Signals P)
      → IsTurn quantity step
      → (ss : List Symbol) (acc : Signals P) → All (IsSafe snapshot quantity) acc.0
      → All (IsSafe snapshot quantity) (foldl step acc ss).0
  loop-IsSafe quantity step k [] acc h = h
  loop-IsSafe quantity step k (s ∷ ss) acc h =
      loop-IsSafe quantity step k ss (step acc s) (turn-IsSafe quantity step acc s k h)

  -- Every intent of the SMA crossover buys the configured quantity of a symbol of which nothing is
  -- held, or sells shares that are held, at most the configured quantity.
  pub cross_decide-IsSafe :
      (c : SmaCrossStrategy) → All (IsSafe snapshot c.quantity) (cross_decide c snapshot).intents
  unfolding cross_decide decision
  cross_decide-IsSafe c =
      loop-IsSafe c.quantity (cross_step c snapshot) (cross_step-IsTurn c) c.symbols ([], []) tt

  -- Every intent of the RSI reversion buys the configured quantity of a symbol of which nothing is
  -- held, or sells shares that are held, at most the configured quantity.
  pub rsi_decide-IsSafe :
      (r : RsiReversionStrategy P)
      → All (IsSafe snapshot r.quantity) (rsi_decide r snapshot).intents
  unfolding rsi_decide decision
  rsi_decide-IsSafe r =
      loop-IsSafe r.quantity (rsi_step r snapshot) (rsi_step-IsTurn r) r.symbols ([], []) tt
