-- ===== src/Runtime/Syncing/Rebuild.antt =====
-- The portfolio that is rebuilt from the venue's positions.
use loss_function.Prelude.{
  true, false, not, ◌&&◌, ◌≡◌, refl, ◌∙◌, inl, inr, Bool-cases, Option, none, some, List, [], ◌∷◌,
  foldl, ok, arith, All, if◌then◌else◌,
}
use loss_function.Prelude.Int.{pos, eqb_ℤ}
use loss_function.Prelude.Maps.{lookup}
use loss_function.Decimal.{Decimal}
use loss_function.Types.{Symbol, symbol_eq}
use loss_function.Domain.Portfolio.{
  Portfolio, PositionState, position, empty, put, bought, apply_fill, fill_entry,
}
use loss_function.Domain.Portfolio.Positions.{position-put}
use loss_function.Broker.{Position, Broker}
use loss_function.Runtime.{TradingRuntime}
use loss_function.Runtime.Syncing.{restoring, with_fill, restore, rebuild_portfolio}

-- No two positions are of the same symbol.
abbrev pub DistinctSymbols : {P : Type 0} → List (Position P) → Type 0
DistinctSymbols [] = Unit
DistinctSymbols (p ∷ ps) =
    All (λ q. symbol_eq.beq q.symbol p.symbol ≡ false) ps × DistinctSymbols ps

module _ {P : Type 0} where
  empty-position : (s : Symbol) → position {P = P} empty s ≡ none
  unfolding position lookup
  empty-position s = refl

  none_held : (ps : List (Position P)) → All (λ q. position {P = P} empty q.symbol ≡ none) ps
  none_held [] = tt
  none_held (p ∷ ps) = (empty-position p.symbol, none_held ps)

  abbrev or_held : Option (PositionState P) → Option (PositionState P) → Option (PositionState P)
  or_held none held = held
  or_held (some v) held = some v

  or_held-none : (x : Option (PositionState P)) → or_held x none ≡ x
  or_held-none none = refl
  or_held-none (some v) = refl

module _ {P : Type 0} ⦃d : Decimal P⦄ where
  -- What the venue reports of a symbol: its shares and average price, nothing realized yet.
  abbrev pub reported : Symbol → List (Position P) → Option (PositionState P)
  reported s [] = none
  reported s (p ∷ ps) =
      if symbol_eq.beq s p.symbol && not (eqb_ℤ p.quantity (pos 0))
      then some (record {
        symbol = p.symbol;
        quantity = p.quantity;
        average_price = p.average_price;
        realized_pnl = d.zero;
      })
      else reported s ps

  restore-put :
      (next : Portfolio P) (p : Position P)
      → eqb_ℤ p.quantity (pos 0) ≡ false
      → restore next p ≡ put p.symbol (bought (restoring p) (position next p.symbol)) next
  unfolding restore with_fill apply_fill fill_entry restoring
  restore-put next p h = rw h refl

  restore_zero :
      (next : Portfolio P) (p : Position P)
      → eqb_ℤ p.quantity (pos 0) ≡ true
      → restore next p ≡ next
  unfolding restore
  restore_zero next p h = rw h refl

  -- one round, for a symbol that is not held yet
  restore_step :
      (next : Portfolio P) (p : Position P) (s : Symbol)
      → position next p.symbol ≡ none
      → position (restore next p) s ≡ or_held (reported s (p ∷ [])) (position next s)
  unfolding bought restoring
  restore_step next p s h = elim (Bool-cases (eqb_ℤ p.quantity (pos 0))) [
    | inl k ↦ rw (restore_zero next p k) (ground (arith, k))
    | inr k ↦
        rw (restore-put next p k) (rw (position-put s p.symbol _ next) (rw h (ground (arith, k))))
  ]

  still_new :
      (next : Portfolio P) (p : Position P) (ps : List (Position P))
      → position next p.symbol ≡ none
      → All (λ q. symbol_eq.beq q.symbol p.symbol ≡ false) ps
      → All (λ q. position next q.symbol ≡ none) ps
      → All (λ q. position (restore next p) q.symbol ≡ none) ps
  still_new next p [] h others new = tt
  still_new next p (q ∷ ps) h others new = (
    restore_step next p q.symbol h ∙ ground (arith, others.0, new.0),
    still_new next p ps h others.1 new.1,
  )

  reported_other :
      (s : Symbol) (p : Position P) (ps : List (Position P))
      → All (λ q. symbol_eq.beq q.symbol p.symbol ≡ false) ps
      → symbol_eq.beq s p.symbol ≡ true
      → reported s ps ≡ none
  reported_other s p [] others h = refl
  reported_other s p (q ∷ ps) others h = ground (
    arith,
    others.0,
    reported_other s p ps others.1 h,
    symbol_eq.beq_iff s p.symbol,
    symbol_eq.beq_iff s q.symbol,
    symbol_eq.beq_iff q.symbol p.symbol,
  )

  restored_all :
      (ps : List (Position P)) (next : Portfolio P) (s : Symbol)
      → DistinctSymbols ps
      → All (λ q. position next q.symbol ≡ none) ps
      → position (foldl restore next ps) s ≡ or_held (reported s ps) (position next s)
  restored_all [] next s distinct new = refl
  restored_all (p ∷ ps) next s distinct new =
      restored_all ps (restore next p) s distinct.1 (still_new next p ps new.0 distinct.0 new.1)
      ∙ ground (arith, restore_step next p s new.0, reported_other s p ps)

module _ {P T Δ D S : Type 0} ⦃d : Decimal P⦄ (broker : Broker P T S) where
  -- If the venue reports positions of distinct symbols, the rebuilt portfolio holds exactly them: each
  -- symbol's position is the reported quantity, if it is not zero, at the reported average price, with
  -- no profit realized, and what the portfolio held before is forgotten.
  pub rebuilt_position :
      (r : TradingRuntime P T Δ D S) (ps : List (Position P)) (s : Symbol)
      → (broker.positions r.world.venue).0 ≡ ok ps
      → DistinctSymbols ps
      → position (rebuild_portfolio broker r).portfolio s ≡ reported s ps
  unfolding rebuild_portfolio
  rebuilt_position r ps s h distinct = rw h (
      restored_all ps empty s distinct (none_held ps)
      ∙ rw (empty-position s) (or_held-none (reported s ps)))
