-- ===== src/History/Window.antt =====
-- The window holds the latest closes of each symbol, and the average sees no others.
use loss_function.Prelude.{
  ℕ, zero, suc, ◌+◌, ◌-◌, ◌≤◌, ◌≡◌, refl, sym, ap, ◌∙◌, inl, inr, some, List, [], ◌∷◌, ◌++◌, length,
  drop, length-append, length-drop, drop-append, drop-drop, drop-past, ltb, arith, if◌then◌else◌,
  Bool-cases,
}
use mathlib.Core.List.{append-nil, append_assoc}
use loss_function.Prelude.Maps.{lookup, lookup-insert}
use loss_function.Decimal.{Decimal}
use loss_function.Types.{Symbol, symbol_eq}
use loss_function.History.{HistoryWindow, new, trim, queue, push, sma}

-- The last `n` items.
abbrev pub latest : {A : Type 0} → ℕ → List A → List A
latest n xs = drop (length xs - n) xs

drop-nil : {P : Type 0} (k : ℕ) → drop {A = P} k [] ≡ []
drop-nil zero = refl
drop-nil (suc k) = refl

trim-eq-latest : {P : Type 0} (n : ℕ) (xs : List P) → trim n xs ≡ latest n xs
unfolding trim
trim-eq-latest n [] = sym (drop-nil (0 - n))
trim-eq-latest n (x ∷ xs) = elim (Bool-cases (ltb n (suc (length xs)))) [
  | inl long ↦
      let e : suc (length xs) - n ≡ suc (length xs - n) = ground arith in
      rw long (rw e (trim-eq-latest n xs))
  | inr short ↦ let e : suc (length xs) - n ≡ 0 = ground arith in rw short (rw e)
]

-- Keeping the latest before and after an item is added keeps the latest of all.
latest-latest :
    {P : Type 0} (n : ℕ) (xs : List P) (y : P)
    → latest n (latest n xs ++ y ∷ []) ≡ latest n (xs ++ y ∷ [])
latest-latest n xs y =
    let zs = xs ++ y ∷ [] in
    let k = length xs - n in
    rw (← drop-append k xs (y ∷ []) (omega arith)) (
      drop-drop (length (drop k zs) - n) k zs
      ∙ ap (λ (j : ℕ). drop j zs) (omega (arith, length-drop k zs, length-append xs (y ∷ []))))

pushed :
    {P : Type 0} (n m : ℕ) (q past : List P) (x : P)
    → m ≡ n
    → q ≡ latest n past
    → latest m (q ++ x ∷ []) ≡ latest n (past ++ x ∷ [])
pushed n m q past x c h = rw (c, h) (latest-latest n past x)

queue-empty :
    {P : Type 0} (n : ℕ) (s : Symbol)
    → queue (let w : HistoryWindow P = record { capacity = n; inner = [] } in w) s ≡ []
unfolding queue lookup
queue-empty n s = refl

-- The closes of one symbol in a sequence of pushes.
abbrev pub closes_of : {P : Type 0} → Symbol → List (Symbol × P) → List P
closes_of s [] = []
closes_of s ((t, c) ∷ ps) =
    let rest = closes_of s ps in if symbol_eq.beq s t then c ∷ rest else rest

module _ {P : Type 0} where
  pub push_all : HistoryWindow P → List (Symbol × P) → HistoryWindow P
  push_all w [] = w
  push_all w ((s, c) ∷ ps) = push_all (push w s c) ps

  queue-push :
      (w : HistoryWindow P) (s t : Symbol) (c : P)
      → queue (push w t c) s
        ≡ (if symbol_eq.beq s t then trim w.capacity (queue w t ++ c ∷ []) else queue w s)
  unfolding queue push
  queue-push w s t c = rw lookup-insert (ground arith)

  capacity-push : (w : HistoryWindow P) (t : Symbol) (c : P) → (push w t c).capacity ≡ w.capacity
  unfolding push
  capacity-push w t c = refl

  -- From a window whose queue of a symbol is the latest of some closes, pushes leave the latest of
  -- these and the pushed ones.
  window_from :
      (n : ℕ) (ps : List (Symbol × P)) (w : HistoryWindow P) (s : Symbol) (past : List P)
      → w.capacity ≡ n
      → queue w s ≡ latest n past
      → queue (push_all w ps) s ≡ latest n (past ++ closes_of s ps)
  unfolding push_all
  window_from n [] w s past c h = rw append-nil h
  window_from n ((t, x) ∷ ps) w s past c h =
      let kept = capacity-push w t x ∙ c in
      elim (Bool-cases (symbol_eq.beq s t)) [
        | inl own ↦ rw own (
            window_from n ps (push w t x) s (past ++ x ∷ []) kept (
              rw (queue-push w s t x) (
                rw own (
                  trim-eq-latest w.capacity (queue w t ++ x ∷ [])
                  ∙ pushed n (w.capacity) (queue w t) past x c
                      (ap (queue w) (sym ((symbol_eq.beq_iff s t).0 own)) ∙ h))))
            ∙ ap (latest n) (append_assoc past (x ∷ []) (closes_of s ps)))
        | inr other ↦
            rw other
              (window_from n ps (push w t x) s past kept (rw (queue-push w s t x) (rw other h)))
      ]

  -- After any pushes on an empty window, the queue of each symbol is the latest `capacity` of the
  -- closes pushed for it, oldest first.
  pub window_exact :
      (capacity : ℕ) (w : HistoryWindow P) (ps : List (Symbol × P)) (s : Symbol)
      → new capacity ≡ some w
      → queue (push_all w ps) s ≡ latest capacity (closes_of s ps)
  unfolding new
  window_exact capacity w ps s h =
      let e : w ≡ record { capacity = capacity; inner = [] } = ground arith in
      window_from capacity ps w s [] (ap (λ x. x.capacity) e)
        (ap (λ x. queue x s) e ∙ (queue-empty capacity s ∙ sym (drop-nil (0 - capacity))))

-- The moving average over a period depends on the latest closes alone, if there are at least as
-- many as the period: what came before them does not count.
pub sma_latest :
    {P : Type 0} ⦃d : Decimal P⦄ (older recent : List P) (period : ℕ)
    → period ≤ length recent
    → sma (older ++ recent) period ≡ sma recent period
unfolding sma
sma_latest older recent period h =
    let e : length (older ++ recent) - period ≡ length older + (length recent - period) =
      omega (arith, length-append older recent) in
    rw e (rw drop-past (ground (arith, length-append older recent)))
