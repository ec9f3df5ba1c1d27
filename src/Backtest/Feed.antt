-- ===== src/Backtest/Feed.antt =====
-- The feed gives every bar once and in order, and none before its turn.
use loss_function.Prelude.{
  ℕ, zero, suc, ◌+◌, ◌<◌, Bool, ◌≡◌, ◌↔◌, refl, ap, ◌∙◌, none, some, List, [], ◌∷◌, ok, length,
  get_elem?, drop, arith, inl, inr, Option-cases,
}
use loss_function.Backtest.{Bar, BacktestFeed, advance, bar_at, feed, sorted}

-- the bars that a number of calls of `advance` give
unfoldable pub taken : {P T : Type 0} → ℕ → BacktestFeed P T → List (Bar P T)
taken zero f = []
taken (suc n) f =
    let (b, f') = advance f in let rest = taken n f' in elim b [ none ↦ rest | some x ↦ x ∷ rest ]

at_drop :
    {A : Type 0} (xs ys : List A) (k : ℕ) (x : A)
    → drop k xs ≡ x ∷ ys
    → (get_elem? xs k ≡ some x) × (drop (suc k) xs ≡ ys)
at_drop [] ys zero x h = cc
at_drop [] ys (suc k) x h = cc
at_drop (z ∷ zs) ys zero x h = (ground (arith, h), ground (arith, h))
at_drop (z ∷ zs) ys (suc k) x h = at_drop zs ys k x h

module _ {P T : Type 0} where
  -- A bar can be read at an index exactly if the cursor is past it; any other index is the error of
  -- a look-ahead, with the index and the cursor.
  pub bar_at_exact :
      (f : BacktestFeed P T) (index : ℕ) (b : Bar P T)
      → (bar_at f index ≡ some (ok b)) ↔ ((index < f.cursor) × (get_elem? f.bars index ≡ some b))
  unfolding bar_at
  bar_at_exact f index b = (
    λ h. elim (Option-cases (get_elem? f.bars index)) [
      | inl out ↦ ground (arith, out, h)
      | inr (x, at) ↦ ground (arith, at, h)
    ],
    λ (below, at). ground (arith, below, at),
  )

  advance_at :
      (f : BacktestFeed P T) (b : Bar P T)
      → get_elem? f.bars f.cursor ≡ some b
      → advance f ≡ (some b, record f { cursor = f.cursor + 1 })
  unfolding advance
  advance_at f b h = ground (arith, h)

  taken_step :
      (n : ℕ) (f f' : BacktestFeed P T) (b : Bar P T)
      → advance f ≡ (some b, f')
      → taken (suc n) f ≡ b ∷ taken n f'
  unfolding taken
  taken_step n f f' b h = ground (arith, h)

  taken-rest :
      (bars rest : List (Bar P T)) (k : ℕ)
      → drop k bars ≡ rest
      → taken (length rest) (record { bars = bars; cursor = k }) ≡ rest
  unfolding taken
  taken-rest bars [] k h = refl
  taken-rest bars (b ∷ rest) k h =
      let (at, next) = at_drop bars rest k b h in
      let e : k + 1 ≡ suc k = ground arith in
      let f : BacktestFeed P T = record { bars = bars; cursor = k } in
      taken_step (length rest) f (record { bars = bars; cursor = k + 1 }) b (advance_at f b at)
      ∙ ap (λ bs. b ∷ bs) (taken-rest bars rest (k + 1) (rw e next))

  -- As many calls of `advance` as there are bars give the bars of the feed, each once and in order.
  pub taken-feed :
      (before : T → T → Bool) (bars : List (Bar P T))
      → let f = feed before bars in taken (length f.bars) f ≡ f.bars
  unfolding feed
  taken-feed before bars = taken-rest (sorted before bars) (sorted before bars) 0 refl
