-- ===== src/Strategy/Rotation/Safety.antt =====
-- The decisions of the rotation.
use loss_function.Prelude.{
  ◌⊎◌, ◌-◌, ◌≡◌, refl, Option, none, some, List, [], ◌∷◌, ◌++◌, foldl, length, get_elem?-inside,
  take, drop, All, arith, Option-cases, Bool-cases, inl, inr, ltb,
}
use loss_function.Prelude.Int.{ℤ, pos, ltb_ℤ, eqb_ℤ, min_ℤ, ◌<ℤ◌}
use loss_function.Prelude.Maps.{lookup, insert_sorted}
use loss_function.Prelude.Text.{text_eq, text_ord, bytes}
use loss_function.Decimal.{Decimal, is_zero}
use loss_function.Types.{Symbol, symbol_eq, sell}
use loss_function.Strategy.{
  MarketSnapshot, OrderIntent, StrategyDecision, held_shares, label, rounded_shown,
}
use loss_function.Strategy.Entry.{All-snoc}
use loss_function.Strategy.Signals.{intent}
use loss_function.Strategy.Signals.Safety.{IsSafe}
use loss_function.Strategy.Rotation.{
  MomentumRotationStrategy, Scores, momentum_score, ranked, score_step, score_loop, enter_turn,
  leave_turn, rotate, rotation_decide,
}

fold-All :
    {A B : Type 0} (Q : A → Type 0) (f : List A → B → List A)
    → ((xs : List A) (b : B) → All Q xs → All Q (f xs b))
    → (bs : List B) (xs : List A) → All Q xs
    → All Q (foldl f xs bs)
fold-All Q f k [] xs h = h
fold-All Q f k (b ∷ bs) xs h = fold-All Q f k bs (f xs b) (k xs b h)

module _ {P T : Type 0} (quantity : ℤ) (snapshot : MarketSnapshot P T) where
  enter_turn-IsSafe :
      (intents : List (OrderIntent P)) (entry : Symbol × P)
      → All (IsSafe snapshot quantity) intents
      → All (IsSafe snapshot quantity) (enter_turn quantity snapshot intents entry)
  unfolding enter_turn intent
  enter_turn-IsSafe intents (s, score) h =
      elim (Bool-cases (eqb_ℤ (held_shares snapshot s) (pos 0))) [
        | inl free ↦ rw free (All-snoc (IsSafe snapshot quantity) intents _ h (ground arith, refl))
        | inr held ↦ rw held h
      ]

  -- the two ways of a turn that leaves
  leave_turn-cases :
      (intents : List (OrderIntent P)) (s : Symbol) (score : P)
      → (leave_turn quantity snapshot intents (s, score) ≡ intents)
        ⊎ ((pos 0 <ℤ held_shares snapshot s)
            × (leave_turn quantity snapshot intents (s, score)
                ≡ intents ++ intent s sell (min_ℤ (held_shares snapshot s) quantity) ∷ []))
  unfolding leave_turn held_shares
  leave_turn-cases intents s score = elim (Option-cases (lookup s snapshot.positions)) [
    | inl gone ↦ inl (ground (arith, gone))
    | inr (position, found) ↦ elim (Bool-cases (ltb_ℤ (pos 0) position.quantity)) [
      | inl held ↦ inr (ground (arith, found, held), ground (arith, found, held))
      | inr empty ↦ inl (ground (arith, found, empty))
    ]
  ]

  leave_turn-IsSafe :
      (intents : List (OrderIntent P)) (entry : Symbol × P)
      → All (IsSafe snapshot quantity) intents
      → All (IsSafe snapshot quantity) (leave_turn quantity snapshot intents entry)
  unfolding intent
  leave_turn-IsSafe intents (s, score) h = elim (leave_turn-cases intents s score) [
    | inl same ↦ rw same h
    | inr (held, sold) ↦
        rw sold (All-snoc (IsSafe snapshot quantity) intents _ h (held, ground arith, ground arith))
  ]

module _ {P : Type 0} ⦃d : Decimal P⦄ where
  -- the two closes that a score is of are there
  momentum_score-defined : (closes : List P) → (r : Option P) × (momentum_score closes ≡ some r)
  unfolding momentum_score
  momentum_score-defined closes = elim (Bool-cases (ltb (length closes) 253)) [
    | inl few ↦ (none, ground (arith, few))
    | inr many ↦
        let (recent, late) = get_elem?-inside closes (length closes - 22) (ground arith) in
        let (base, early) = get_elem?-inside closes (length closes - 253) (ground arith) in
        elim (Bool-cases (is_zero base)) [
          | inl free ↦ (none, rw (many, late, early, free) refl)
          | inr paid ↦ (some (d.div (d.sub recent base) base), rw (many, late, early, paid) refl)
        ]
  ]

module _ {P T : Type 0} ⦃d : Decimal P⦄ (snapshot : MarketSnapshot P T) where
  score_step-defined :
      (s : Symbol) (acc : Scores P) → (next : Scores P) × (score_step snapshot s acc ≡ some next)
  unfolding score_step
  score_step-defined s (features, scores) = elim (Option-cases (lookup s snapshot.history)) [
    | inl gone ↦ ((features, scores), ground (arith, gone))
    | inr (closes, found) ↦
        let (answer, scored) = momentum_score-defined closes in
        elim (Option-cases answer) [
          | inl few ↦ ((features, scores), ground (arith, found, scored, few))
          | inr (score, known) ↦ (
            (
              insert_sorted (label s (bytes "score")) (rounded_shown 4 score) features,
              scores ++ (s, score) ∷ [],
            ),
            ground (arith, found, scored, known),
          )
        ]
  ]

  score_loop-defined :
      (ss : List Symbol) (acc : Scores P)
      → (last : Scores P) × (score_loop snapshot ss acc ≡ some last)
  unfolding score_loop
  score_loop-defined [] acc = (acc, refl)
  score_loop-defined (s ∷ ss) acc =
      let (next, stepped) = score_step-defined s acc in
      let (last, looped) = score_loop-defined ss next in (last, ground (arith, stepped, looped))

  rotate-IsSafe :
      (m : MomentumRotationStrategy) (acc : Scores P)
      → All (IsSafe snapshot m.quantity) (rotate m snapshot acc).intents
  unfolding rotate
  rotate-IsSafe m (features, scores) =
      let Q = IsSafe snapshot m.quantity in
      fold-All Q (leave_turn m.quantity snapshot) (leave_turn-IsSafe m.quantity snapshot)
        (drop m.top_n (ranked scores))
        (foldl (enter_turn m.quantity snapshot) [] (take m.top_n (ranked scores)))
        (fold-All Q (enter_turn m.quantity snapshot) (enter_turn-IsSafe m.quantity snapshot)
          (take m.top_n (ranked scores)) [] tt)

  -- The momentum rotation always decides, whatever the histories, and every intent buys the configured
  -- quantity of a symbol of which nothing is held, or sells shares that are held, at most the configured
  -- quantity.
  pub rotation_decides :
      (m : MomentumRotationStrategy)
      → (decision : StrategyDecision P) × (rotation_decide m snapshot ≡ some decision)
        × All (IsSafe snapshot m.quantity) decision.intents
  unfolding rotation_decide
  rotation_decides m =
      let (last, looped) = score_loop-defined m.symbols ([], []) in
      (rotate m snapshot last, ground (arith, looped), rotate-IsSafe m last)
