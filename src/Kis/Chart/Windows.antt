-- ===== src/Kis/Chart/Windows.antt =====
-- The windows cover the days from the first to the last, each once.
use loss_function.Prelude.{
  ℕ, zero, suc, ◌+◌, ◌-◌, ◌≤◌, ◌<◌, Bool, ◌&&◌, ◌≡◌, refl, ◌∙◌, List, [], ◌∷◌, arith, Bool-cases,
  inl, inr, leb, All, if◌then◌else◌,
}
use loss_function.Kis.Chart.{Window}
use loss_function.Kis.Chart.Walk.{windows_from, windows, middle, lower, upper}

-- how many windows a day is in
abbrev pub within : ℕ → ℕ → ℕ → Bool
within start stop d = leb start d && leb d stop

abbrev pub times_in : ℕ → List Window → ℕ
times_in d [] = 0
times_in d (w ∷ ws) = let n = times_in d ws in if within w.start w.stop d then n + 1 else n

-- a window of at least one day and at most 100
abbrev pub IsShort : Window → Type 0
IsShort w = (w.start ≤ w.stop) × (w.stop ≤ w.start + 99)

window_done :
    (fuel start stop : ℕ) (stack : List Window)
    → stop < start
    → windows_from fuel start stop stack ≡ stack
unfolding windows_from
window_done zero start stop stack h = refl
window_done (suc fuel) start stop stack h = ground arith

-- the last day of a window
abbrev last_day : ℕ → ℕ → ℕ
last_day start stop = if leb (start + 99) stop then start + 99 else stop

window_next :
    (fuel start stop : ℕ) (stack : List Window)
    → start ≤ stop
    → windows_from (suc fuel) start stop stack
      ≡ windows_from fuel
          (last_day start stop + 1)
          stop
          (record { start = start; stop = last_day start stop; depth = 0 } ∷ stack)
unfolding windows_from
window_next fuel start stop stack h = ground arith

windows_from_once :
    (fuel start stop : ℕ) (stack : List Window) (d : ℕ)
    → stop + 1 - start ≤ fuel
    → times_in d (windows_from fuel start stop stack)
      ≡ times_in d stack + (if within start stop d then 1 else 0)
windows_from_once zero start stop stack d h =
    rw (window_done zero start stop stack (omega arith)) (ground arith)
windows_from_once (suc fuel) start stop stack d h = elim (Bool-cases (leb start stop)) [
  | inr over ↦ rw (window_done (suc fuel) start stop stack (ground arith)) (ground arith)
  | inl more ↦ rw (window_next fuel start stop stack (ground arith)) (
      ground (
        arith,
        windows_from_once fuel (last_day start stop + 1) stop
            (record { start = start; stop = last_day start stop; depth = 0 } ∷ stack) d,
      ))
]

windows_from-IsShort :
    (fuel start stop : ℕ) (stack : List Window)
    → All IsShort stack
    → All IsShort (windows_from fuel start stop stack)
unfolding windows_from
windows_from-IsShort zero start stop stack h = h
windows_from-IsShort (suc fuel) start stop stack h = elim (Bool-cases (leb start stop)) [
  | inr over ↦ rw (window_done (suc fuel) start stop stack (ground arith)) h
  | inl more ↦ rw (window_next fuel start stop stack (ground arith)) (
      windows_from-IsShort fuel (last_day start stop + 1) stop
        (record { start = start; stop = last_day start stop; depth = 0 } ∷ stack)
        ((ground arith, ground arith), h))
]

-- Each day from the first to the last is in exactly one window, other days are in none, and a window
-- has at least one day and at most 100.
pub windows_once :
    (from to d : ℕ)
    → (times_in d (windows from to) ≡ (if within from to d then 1 else 0))
      × All IsShort (windows from to)
unfolding windows
windows_once from to d = (
  windows_from_once (to + 1 - from) from to [] d (omega arith) ∙ ground arith,
  windows_from-IsShort (to + 1 - from) from to [] tt,
)

-- The halves of a window of more than one day have its days, each once.
pub halves_once :
    (w : Window) (ws : List Window) (d : ℕ)
    → w.start < w.stop
    → times_in d (upper w ∷ lower w ∷ ws) ≡ times_in d (w ∷ ws)
unfolding upper lower middle
halves_once w ws d h = ground arith
