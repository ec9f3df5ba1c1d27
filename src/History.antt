-- ===== src/History.antt =====
-- rust/lossfunction/src/history.rs: the window of past closes per symbol, and the moving average.
pub mod Window
use loss_function.Prelude.{
  ℕ, zero, suc, ◌-◌, Bool, ◌||◌, Option, none, some, List, [], ◌∷◌, ◌++◌, length, drop, ltb, ◌==◌,
  unwrap_or, if◌then◌else◌,
}
use loss_function.Prelude.Int.{pos}
use loss_function.Prelude.Maps.{Map, lookup, insert}
use loss_function.Decimal.{Decimal, sum}
use loss_function.Types.{Symbol, symbol_eq}

-- Each `VecDeque` is a list, the oldest close first.
pub record HistoryWindow (P : Type 0) : Type 0 where
  pub capacity : ℕ
  pub inner : Map Symbol (List P)

-- `while queue.len() > self.capacity { queue.pop_front(); }`
unfoldable pub trim : {P : Type 0} → ℕ → List P → List P
trim capacity [] = []
trim capacity (x ∷ xs) = if ltb capacity (length (x ∷ xs)) then trim capacity xs else x ∷ xs

module _ {P : Type 0} where
  -- `HistoryWindow::new`; `none` is the panic of its `assert!`
  unfoldable pub new : ℕ → Option (HistoryWindow P)
  new capacity = if ltb 0 capacity then some (record { capacity = capacity; inner = [] }) else none

  -- the queue of a symbol, `entry(..).or_default()`
  unfoldable pub queue : HistoryWindow P → Symbol → List P
  queue w s = unwrap_or (lookup s w.inner) []

  -- `HistoryWindow::push`
  unfoldable pub push : HistoryWindow P → Symbol → P → HistoryWindow P
  push w s close = record w { inner = insert s (trim w.capacity (queue w s ++ close ∷ [])) w.inner }

  -- `HistoryWindow::snapshot`: a copy
  unfoldable pub snapshot : HistoryWindow P → Map Symbol (List P)
  snapshot w = w.inner

  -- `HistoryWindow::len`
  unfoldable pub len : HistoryWindow P → Symbol → ℕ
  unfolding queue
  len w s = length (queue w s)

-- `sma`
unfoldable pub sma : {P : Type 0} ⦃d : Decimal P⦄ → List P → ℕ → Option P
sma ⦃d⦄ closes period =
    if period == 0 || ltb (length closes) period
    then none
    else some (d.div (sum (drop (length closes - period) closes)) (d.of_int (pos period)))
