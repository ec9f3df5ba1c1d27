-- ===== src/Strategy/Rotation/Ranking.antt =====
-- The order of the scores.
use loss_function.Prelude.{
  ℕ, zero, suc, true, false, ◌≡◌, List, [], ◌∷◌, take, drop, All, arith, inl, inr, Bool-cases,
}
use loss_function.Decimal.{Decimal}
use loss_function.Types.{Symbol}
use loss_function.Strategy.Rotation.{ranks, slot, ranked}

module _ {P : Type 0} ⦃d : Decimal P⦄ where
  -- no entry of a list scores above a value
  abbrev pub IsCappedBy : P → List (Symbol × P) → Type 0
  IsCappedBy a xs = All (λ y. d.le (y.1) a ≡ true) xs

  -- the scores of a list go down
  abbrev pub IsFalling : List (Symbol × P) → Type 0
  IsFalling [] = Unit
  IsFalling (x ∷ xs) = IsCappedBy (x.1) xs × IsFalling xs

  ranks_first : (x y : Symbol × P) → ranks x y ≡ true → d.le (y.1) (x.1) ≡ true
  unfolding ranks
  ranks_first (s, a) (t, b) h = ground (arith, d.le_total a b)

  ranks_last : (x y : Symbol × P) → ranks x y ≡ false → d.le (x.1) (y.1) ≡ true
  unfolding ranks
  ranks_last (s, a) (t, b) h = ground (arith, d.le_total a b)

  lowered : (a b : P) (xs : List (Symbol × P)) → d.le a b ≡ true → IsCappedBy a xs → IsCappedBy b xs
  lowered a b [] h k = tt
  lowered a b (x ∷ xs) h (k, ks) = (d.le_trans (x.1) a b k h, lowered a b xs h ks)

  slot-IsCappedBy :
      (a : P) (x : Symbol × P) (ys : List (Symbol × P))
      → d.le (x.1) a ≡ true
      → IsCappedBy a ys
      → IsCappedBy a (slot x ys)
  unfolding slot
  slot-IsCappedBy a x [] h k = (h, tt)
  slot-IsCappedBy a x (y ∷ ys) h (k, ks) = elim (Bool-cases (ranks x y)) [
    | inl before ↦ rw before (h, (k, ks))
    | inr after ↦ rw after (k, slot-IsCappedBy a x ys h ks)
  ]

  slot-IsFalling : (x : Symbol × P) (ys : List (Symbol × P)) → IsFalling ys → IsFalling (slot x ys)
  unfolding slot
  slot-IsFalling x [] h = (tt, tt)
  slot-IsFalling x (y ∷ ys) (k, ks) = elim (Bool-cases (ranks x y)) [
    | inl before ↦
        let first = ranks_first x y before in
        rw before ((first, lowered (y.1) (x.1) ys first k), (k, ks))
    | inr after ↦
        rw after (slot-IsCappedBy (y.1) x ys (ranks_last x y after) k, slot-IsFalling x ys ks)
  ]

  pub ranked-IsFalling : (xs : List (Symbol × P)) → IsFalling (ranked xs)
  unfolding ranked
  ranked-IsFalling [] = tt
  ranked-IsFalling (x ∷ xs) = slot-IsFalling x (ranked xs) (ranked-IsFalling xs)

  drop-IsCappedBy :
      (n : ℕ) (a : P) (xs : List (Symbol × P)) → IsCappedBy a xs → IsCappedBy a (drop n xs)
  drop-IsCappedBy zero a xs h = h
  drop-IsCappedBy (suc n) a [] h = tt
  drop-IsCappedBy (suc n) a (x ∷ xs) (h, hs) = drop-IsCappedBy n a xs hs

  falling_split :
      (n : ℕ) (xs : List (Symbol × P))
      → IsFalling xs
      → All (λ x. IsCappedBy (x.1) (drop n xs)) (take n xs)
  falling_split zero xs h = tt
  falling_split (suc n) [] h = tt
  falling_split (suc n) (x ∷ xs) (h, hs) = (drop-IsCappedBy n (x.1) xs h, falling_split n xs hs)

  -- No score outside the first `n` of the ranking is above one of the first `n`.
  pub ranked_top :
      (n : ℕ) (xs : List (Symbol × P))
      → All (λ x. IsCappedBy (x.1) (drop n (ranked xs))) (take n (ranked xs))
  ranked_top n xs = falling_split n (ranked xs) (ranked-IsFalling xs)
