-- ===== src/MarketData/Backfill/Outcomes.antt =====
-- One outcome for each symbol, and no failure stops the rest.
use loss_function.Prelude.{◌≡◌, refl, ap, List, [], ◌∷◌, ◌++◌, map}
use loss_function.Types.{Symbol}
use loss_function.MarketData.Backfill.{MarketDataSource, CandleStore, store, backfill_daily}

module _ {P T E S : Type 0} (market : MarketDataSource P T E S) (repository : CandleStore P T E S)
    (from to : T) where
  outcomes_symbols :
      (xs : List Symbol) (s : S)
      → map (λ o. o.0) (backfill_daily market repository from to xs s).0 ≡ xs
  unfolding backfill_daily
  outcomes_symbols [] s = refl
  outcomes_symbols (x ∷ xs) s =
      ap (λ ys. x ∷ ys)
        (outcomes_symbols xs (store market repository from to (market.daily_bars s x from to)).1)

  outcomes_append :
      (xs ys : List Symbol) (s : S)
      → let (first, s') = backfill_daily market repository from to xs s in
        let (rest, s'') = backfill_daily market repository from to ys s' in
        backfill_daily market repository from to (xs ++ ys) s ≡ (first ++ rest, s'')
  unfolding backfill_daily
  outcomes_append [] ys s = refl
  outcomes_append (x ∷ xs) ys s =
      let (outcome, s1) = store market repository from to (market.daily_bars s x from to) in
      ap (λ r. let (os, s'') = r in ((x, outcome) ∷ os, s'')) (outcomes_append xs ys s1)

  -- A backfill has one outcome for each symbol, in their order, whatever fails; and the symbols after
  -- some first ones are treated as in a backfill of their own, from the state that the first ones left.
  pub backfill_outcomes :
      (xs ys : List Symbol) (s : S)
      → let (all, end) = backfill_daily market repository from to (xs ++ ys) s in
        let (first, s') = backfill_daily market repository from to xs s in
        let (rest, s'') = backfill_daily market repository from to ys s' in
        (map (λ o. o.0) all ≡ xs ++ ys) × (all ≡ first ++ rest) × (end ≡ s'')
  backfill_outcomes xs ys s =
      let split = outcomes_append xs ys s in
      (outcomes_symbols (xs ++ ys) s, ap (λ p. p.0) split, ap (λ p. p.1) split)
