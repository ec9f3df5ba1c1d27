-- ===== src/MarketData/Aggregator/Days.antt =====
-- A run of ticks: every open bar keeps its shape, and a bar is out exactly when the date changes.
use loss_function.Prelude.{
  true, ◌≡◌, refl, Option, none, some, List, [], ◌∷◌, arith, inl, inr, foldl, All, sym,
  if◌then◌else◌, Bool-cases,
}
use loss_function.Prelude.Keys.{Eq, beq_refl}
use loss_function.Prelude.Maps.{lookup, lookup-insert}
use loss_function.Decimal.{Decimal}
use loss_function.Types.{Symbol, symbol_eq, Quote}
use loss_function.MarketData.{Bar}
use loss_function.MarketData.Aggregator.{
  Calendar, PartialBar, BarAggregator, first_tick, next_tick, current, kst_date, completed,
  push_onto, push,
}
use loss_function.MarketData.Aggregator.Bars.{IsBar, first_tick-IsBar, next_tick-IsBar}

module _ {P D : Type 0} ⦃d : Decimal P⦄ where
  -- Every open bar has the shape of a bar.
  abbrev pub AllBars : BarAggregator P D → Type 0
  AllBars a = (s : Symbol) (p : PartialBar P D) → current a s ≡ some p → IsBar p

module _ {P T D : Type 0} ⦃d : Decimal P⦄ ⦃e : Eq D⦄ (c : Calendar T D) where
  -- the open bar that a tick leaves behind for its symbol
  abbrev pub left_open : Option (PartialBar P D) → Quote P T → PartialBar P D
  left_open none q = first_tick (kst_date c q.timestamp) q.last_price
  left_open (some p) q =
      if e.beq p.date (kst_date c q.timestamp)
      then next_tick p q.last_price
      else first_tick (kst_date c q.timestamp) q.last_price

  -- the bar that a tick closes
  abbrev pub closed : Option (PartialBar P D) → Quote P T → Option (Bar P T)
  closed none q = none
  closed (some p) q =
      if e.beq p.date (kst_date c q.timestamp) then none else some (completed c q.symbol p)

  pub current-push_onto :
      (o : Option (PartialBar P D)) (a : BarAggregator P D) (q : Quote P T) (s : Symbol)
      → current (push_onto c o a q).1 s
        ≡ (if symbol_eq.beq s q.symbol then some (left_open o q) else current a s)
  unfolding push_onto current
  current-push_onto none a q s = lookup-insert s q.symbol _ a.inner
  current-push_onto (some p) a q s = elim (Bool-cases (e.beq p.date (kst_date c q.timestamp))) [
    | inl t ↦ rw t (lookup-insert s q.symbol _ a.inner)
    | inr f ↦ rw f (lookup-insert s q.symbol _ a.inner)
  ]

  pub current-push :
      (a : BarAggregator P D) (q : Quote P T) (s : Symbol)
      → current (push c a q).1 s ≡ (
          if symbol_eq.beq s q.symbol then some (left_open (current a q.symbol) q) else current a s)
  unfolding push current
  current-push a q s = current-push_onto (lookup q.symbol a.inner) a q s

  pub closed-push_onto :
      (o : Option (PartialBar P D)) (a : BarAggregator P D) (q : Quote P T)
      → (push_onto c o a q).0 ≡ closed o q
  unfolding push_onto
  closed-push_onto none a q = refl
  closed-push_onto (some p) a q = ground arith

  -- A bar comes out exactly if the symbol has an open bar of another date, and it is that bar.
  pub closed-push :
      (a : BarAggregator P D) (q : Quote P T) → (push c a q).0 ≡ closed (current a q.symbol) q
  unfolding push current
  closed-push a q = closed-push_onto (lookup q.symbol a.inner) a q

  pub left_open-IsBar :
      (o : Option (PartialBar P D)) (q : Quote P T)
      → ((p : PartialBar P D) → o ≡ some p → IsBar p)
      → IsBar (left_open o q)
  left_open-IsBar none q h = first_tick-IsBar _ _
  left_open-IsBar (some p) q h = elim (Bool-cases (e.beq p.date (kst_date c q.timestamp))) [
    | inl t ↦ rw t (next_tick-IsBar p q.last_price (h p refl))
    | inr f ↦ rw f (first_tick-IsBar _ _)
  ]

  -- If every open bar has open and close between low and high, the same holds after any tick.
  pub push-AllBars : (a : BarAggregator P D) (q : Quote P T) → AllBars a → AllBars (push c a q).1
  push-AllBars a q h s p g = elim (Bool-cases (symbol_eq.beq s q.symbol)) [
    | inl t ↦
        let e : left_open (current a q.symbol) q ≡ p = ground (arith, current-push a q s) in
        rw (sym e) (left_open-IsBar (current a q.symbol) q (h q.symbol))
    | inr f ↦ h s p (ground (arith, current-push a q s))
  ]

  -- a sequence of ticks: the bars that come out, and the aggregator
  unfoldable pub push_all :
      BarAggregator P D → List (Quote P T) → List (Bar P T) × BarAggregator P D
  push_all a [] = ([], a)
  push_all a (q ∷ qs) =
      let (out, a') = push c a q in
      let (rest, a'') = push_all a' qs in (elim out [ none ↦ rest | some b ↦ b ∷ rest ], a'')

  -- the ticks of one symbol on one date
  abbrev pub OnDay : Symbol → D → Quote P T → Type 0
  OnDay s date q = (q.symbol ≡ s) × (kst_date c q.timestamp ≡ date)

  -- While a symbol's ticks stay on the date of its open bar no bar comes out, and the open bar is the
  -- one that the prices update in turn.
  pub day-push_all :
      (a : BarAggregator P D) (s : Symbol) (p : PartialBar P D) (qs : List (Quote P T))
      → current a s ≡ some p
      → All (OnDay s p.date) qs
      → ((push_all a qs).0 ≡ [])
        × (current (push_all a qs).1 s ≡ some (foldl (λ b q. next_tick b q.last_price) p qs))
  unfolding push_all next_tick
  day-push_all a s p [] o h = (refl, o)
  day-push_all a s p (q ∷ qs) o ((h, k), hs) =
      let same : e.beq p.date (kst_date c q.timestamp) ≡ true = rw k (beq_refl p.date) in
      let at : current a q.symbol ≡ some p = rw h o in
      let quiet : (push c a q).0 ≡ none = rw (closed-push a q) (rw at (rw same refl)) in
      let next : current (push c a q).1 s ≡ some (next_tick p q.last_price) =
        rw (current-push a q s) (rw at (rw (h, beq_refl s) (rw same refl))) in
      let (silent, last) = day-push_all (push c a q).1 s (next_tick p q.last_price) qs next hs in
      (rw (quiet, push_all) silent, last)
