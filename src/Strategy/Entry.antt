-- ===== src/Strategy/Entry.antt =====
-- The entry-price strategy buys what it should, and the layer keeps every decision.
use loss_function.Prelude.{
  ◌≡◌, refl, sym, ◌∙◌, ◌&&◌, none, some, List, [], ◌∷◌, ◌++◌, map, foldl, All, arith, true, inl,
  inr, Bool-cases, Option-cases,
}
use mathlib.Core.List.{append-nil, append_assoc}
use loss_function.Prelude.Int.{ℤ, pos, eqb_ℤ}
use loss_function.Prelude.Maps.{Map, lookup}
use loss_function.Decimal.{Decimal}
use loss_function.Types.{Symbol, symbol_eq, Quote, buy}
use loss_function.Strategy.{
  MarketSnapshot, OrderIntent, DecisionLayer, decide, held_shares, EntryPriceStrategy, Signals,
  enter, entry_step, entry_decide,
}

-- a predicate on a list with one more item
pub All-snoc :
    {A : Type 0} (Q : A → Type 0) (xs : List A) (x : A) → All Q xs → Q x → All Q (xs ++ x ∷ [])
All-snoc Q [] x h k = (k, tt)
All-snoc Q (y ∷ ys) x (g, h) k = (g, All-snoc Q ys x h k)

module _ {P T : Type 0} where
  -- a run of decisions
  unfoldable pub decide_all : DecisionLayer P T → List (MarketSnapshot P T) → DecisionLayer P T
  decide_all l [] = l
  decide_all l (s ∷ ss) = decide_all (decide l s).1 ss

  -- The log of a layer after a run is what it held before, and then the strategy's own decision on
  -- each snapshot in turn: a replay of the snapshots reproduces it.
  pub decisions-decide_all :
      (l : DecisionLayer P T) (ss : List (MarketSnapshot P T))
      → ((decide_all l ss).decisions ≡ l.decisions ++ map l.strategy.decide ss)
        × ((decide_all l ss).strategy ≡ l.strategy)
  unfolding decide_all decide
  decisions-decide_all l [] = (sym (append-nil l.decisions), refl)
  decisions-decide_all l (s ∷ ss) =
      let (log, same) = decisions-decide_all (decide l s).1 ss in
      (log ∙ append_assoc l.decisions (l.strategy.decide s ∷ []) (map l.strategy.decide ss), same)

module _ {P T : Type 0} ⦃d : Decimal P⦄ (snapshot : MarketSnapshot P T) where
  -- An intent of an entry with the property `R`: a buy of the whole quantity at the quoted price,
  -- which is at or below the configured one, of a symbol of which nothing is held.
  abbrev pub IsEntry : (Symbol × P → Type 0) → ℤ → OrderIntent P → Type 0
  IsEntry R quantity i =
      (q : Quote P T) × (entry : P) × (lookup i.symbol snapshot.quotes ≡ some q)
      × R (i.symbol, entry)
      × (d.le q.last_price entry ≡ true)
      × (held_shares snapshot i.symbol ≡ pos 0)
      × (i.side ≡ buy)
      × (i.quantity ≡ quantity)
      × (i.limit_price ≡ some q.last_price)

  unquoted :
      (quantity : ℤ) (acc : Signals P) (s : Symbol) (entry : P)
      → lookup s snapshot.quotes ≡ none
      → (entry_step quantity snapshot acc (s, entry)).0 ≡ acc.0
  unfolding entry_step
  unquoted quantity acc s entry h = ground arith

  quoted :
      (quantity : ℤ) (acc : Signals P) (s : Symbol) (entry : P) (q : Quote P T)
      → lookup s snapshot.quotes ≡ some q
      → (entry_step quantity snapshot acc (s, entry)).0
        ≡ enter quantity (held_shares snapshot s) s entry q.last_price acc.0
  unfolding entry_step
  quoted quantity acc s entry q h = ground arith

  enter-IsEntry :
      (R : Symbol × P → Type 0) (quantity : ℤ) (intents : List (OrderIntent P)) (s : Symbol)
      (entry : P) (q : Quote P T)
      → R (s, entry)
      → lookup s snapshot.quotes ≡ some q
      → All (IsEntry R quantity) intents
      → All
          (IsEntry R quantity)
          (enter quantity (held_shares snapshot s) s entry q.last_price intents)
  unfolding enter
  enter-IsEntry R quantity intents s entry q r found h =
      elim (Bool-cases (eqb_ℤ (held_shares snapshot s) (pos 0) && d.le q.last_price entry)) [
        | inl t ↦ rw t (
            All-snoc (IsEntry R quantity) intents _ h
              (q, entry, found, r, ground arith, ground arith, refl, refl, refl))
        | inr f ↦ rw f h
      ]

  step-IsEntry :
      (R : Symbol × P → Type 0) (quantity : ℤ) (acc : Signals P) (e : Symbol × P)
      → R e
      → All (IsEntry R quantity) acc.0
      → All (IsEntry R quantity) (entry_step quantity snapshot acc e).0
  step-IsEntry R quantity acc (s, entry) r h = elim (Option-cases (lookup s snapshot.quotes)) [
    | inl gone ↦ rw (unquoted quantity acc s entry gone) h
    | inr (q, found) ↦
        rw (quoted quantity acc s entry q found)
          (enter-IsEntry R quantity acc.0 s entry q r found h)
  ]

  loop-IsEntry :
      (R : Symbol × P → Type 0) (quantity : ℤ) (entries : Map Symbol P) (acc : Signals P)
      → All R entries
      → All (IsEntry R quantity) acc.0
      → All (IsEntry R quantity) (foldl (entry_step quantity snapshot) acc entries).0
  loop-IsEntry R quantity [] acc r h = h
  loop-IsEntry R quantity (e ∷ es) acc (r, rs) h =
      loop-IsEntry R quantity es _ rs (step-IsEntry R quantity acc e r h)

  -- Every intent of the strategy is of a configured entry: whatever property the entries have, the
  -- intent's has it too. It is a buy of the configured quantity at the quoted price, which is at or
  -- below the entry's, of a symbol of which nothing is held.
  pub entry_decide-IsEntry :
      (R : Symbol × P → Type 0) (e : EntryPriceStrategy P)
      → All R e.entry_prices
      → All (IsEntry R e.quantity) (entry_decide e snapshot).intents
  unfolding entry_decide
  entry_decide-IsEntry R e r = loop-IsEntry R e.quantity e.entry_prices ([], []) r tt
