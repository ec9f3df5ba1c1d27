-- ===== src/Strategy/Rotation.antt =====
-- rust/lossfunction/src/strategies2.rs: the momentum rotation. `none` is a panic, an index out of range.
pub mod Ranking
pub mod Safety
use loss_function.Prelude.{
  ℕ, ◌-◌, Bool, true, false, not, Option, none, some, List, [], ◌∷◌, ◌++◌, foldl, length, get_elem?,
  take, drop, ltb, if◌then◌else◌,
}
use loss_function.Prelude.Int.{ℤ, pos, ltb_ℤ, eqb_ℤ, min_ℤ}
use loss_function.Prelude.Text.{Text, text_eq, text_ord, text_less, bytes, show_nat}
use loss_function.Prelude.Maps.{Map, lookup, insert_sorted}
use loss_function.Decimal.{Decimal, lt, is_zero}
use loss_function.Types.{buy, sell, Symbol, symbol_eq}
use loss_function.Strategy.{
  MarketSnapshot, OrderIntent, StrategyDecision, Shown, rounded_shown, held_shares, label,
}
use loss_function.Strategy.Signals.{intent}

pub record MomentumRotationStrategy : Type 0 where
  pub symbols : List Symbol
  pub top_n : ℕ
  pub quantity : ℤ

-- the accumulators of the first loop: the features and the scores
abbrev pub Scores : Type 0 → Type 0
Scores P = Map Text (Shown P) × List (Symbol × P)

module _ {P : Type 0} ⦃d : Decimal P⦄ where
  -- `MomentumRotationStrategy::momentum_score`
  unfoldable pub momentum_score : List P → Option (Option P)
  momentum_score closes =
      if ltb (length closes) 253 then some none else elim (get_elem? closes (length closes - 22)) [
        | none ↦ none
        | some recent ↦ elim (get_elem? closes (length closes - 253)) [
          | none ↦ none
          | some base ↦
              if is_zero base then some none else some (some (d.div (d.sub recent base) base))
        ]
      ]

  -- whether an entry may stand before another: the higher score first, then the lower ticker
  unfoldable pub ranks : Symbol × P → Symbol × P → Bool
  ranks (s, a) (t, b) =
      if lt b a then true else if lt a b then false else not (text_less t.text s.text)

  -- `sort_by`, stable
  unfoldable pub slot : Symbol × P → List (Symbol × P) → List (Symbol × P)
  slot x [] = x ∷ []
  slot x (y ∷ ys) = let rest = slot x ys in if ranks x y then x ∷ y ∷ ys else y ∷ rest

  unfoldable pub ranked : List (Symbol × P) → List (Symbol × P)
  ranked [] = []
  ranked (x ∷ xs) = slot x (ranked xs)

module _ {P T : Type 0} ⦃d : Decimal P⦄ where
  -- one turn of the loop over the symbols
  unfoldable pub score_step : MarketSnapshot P T → Symbol → Scores P → Option (Scores P)
  score_step snapshot s (features, scores) = elim (lookup s snapshot.history) [
    | none ↦ some (features, scores)
    | some closes ↦ elim (momentum_score closes) [
      | none ↦ none
      | some none ↦ some (features, scores)
      | some (some score) ↦ some (
        insert_sorted (label s (bytes "score")) (rounded_shown 4 score) features,
        scores ++ (s, score) ∷ [],
      )
    ]
  ]

  unfoldable pub score_loop : MarketSnapshot P T → List Symbol → Scores P → Option (Scores P)
  score_loop snapshot [] acc = some acc
  score_loop snapshot (s ∷ ss) acc = elim (score_step snapshot s acc) [
    | none ↦ none
    | some acc' ↦ score_loop snapshot ss acc'
  ]

module _ {P T : Type 0} where
  -- the turns of the loops over the first `top_n` and over the others
  unfoldable pub enter_turn :
      ℤ → MarketSnapshot P T → List (OrderIntent P) → Symbol × P → List (OrderIntent P)
  enter_turn quantity snapshot intents (s, score) =
      if eqb_ℤ (held_shares snapshot s) (pos 0)
      then intents ++ intent s buy quantity ∷ []
      else intents

  unfoldable pub leave_turn :
      ℤ → MarketSnapshot P T → List (OrderIntent P) → Symbol × P → List (OrderIntent P)
  leave_turn quantity snapshot intents (s, score) = elim (lookup s snapshot.positions) [
    | none ↦ intents
    | some position ↦
        if ltb_ℤ (pos 0) position.quantity
        then intents ++ intent s sell (min_ℤ position.quantity quantity) ∷ []
        else intents
  ]

module _ {P T : Type 0} ⦃d : Decimal P⦄ where
  -- the decision on the scores
  unfoldable pub rotate :
      MomentumRotationStrategy → MarketSnapshot P T → Scores P → StrategyDecision P
  rotate m snapshot (features, scores) =
      let order = ranked scores in
      let entered = foldl (enter_turn m.quantity snapshot) [] (take m.top_n order) in
      record {
        strategy_name = bytes "momentum-rotation";
        strategy_version = bytes "1";
        intents = foldl (leave_turn m.quantity snapshot) entered (drop m.top_n order);
        features = features;
        rationale = bytes "top-" ++ (show_nat m.top_n ++ bytes " by 12-1 momentum");
      }

  -- `MomentumRotationStrategy::decide`
  unfoldable pub rotation_decide :
      MomentumRotationStrategy → MarketSnapshot P T → Option (StrategyDecision P)
  rotation_decide m snapshot = elim (score_loop snapshot m.symbols ([], [])) [
    | none ↦ none
    | some acc ↦ some (rotate m snapshot acc)
  ]
