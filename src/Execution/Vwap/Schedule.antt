-- ===== src/Execution/Vwap/Schedule.antt =====
-- The schedule fills the parent order exactly, in as many rounds as it has slices.
use native.Mathlib.Nat.{mul-div_cancel_left}
use loss_function.Prelude.{
  ℕ, zero, suc, ◌+◌, ◌*◌, ◌/◌, ◌%◌, ◌≤◌, ◌<◌, ◌^◌, true, ◌≡◌, ◌↔◌, refl, ◌∙◌, ap, ok, arith,
}
use loss_function.Prelude.Int.{ℤ, pos, ◌≤ℤ◌, ◌+ℤ◌, add_i64, add_i64_exact, int_laws}
use loss_function.Execution.Vwap.{
  VwapSchedule, quotient, divides, new, complete, next_slice, record_fill,
}

-- Each round sends the next slice and records it as filled.
pub rounds : ℕ → VwapSchedule → VwapSchedule
rounds zero s = s
rounds (suc k) s = rounds k (record_fill s (next_slice s))

-- What is recorded never passes the parent order, whatever is filled.
pub never_overfilled :
    (s : VwapSchedule) (quantity : ℤ)
    → ((record_fill s quantity).filled ≤ℤ s.total_quantity)
      × ((record_fill s quantity).total_quantity ≡ s.total_quantity)
      × ((record_fill s quantity).slices ≡ s.slices)
unfolding record_fill
never_overfilled s quantity = ground arith

-- A schedule of `n * size` shares in `n` slices, of which `k` are done.
abbrev pub done_of : ℕ → ℕ → ℕ → VwapSchedule
done_of n size k = record {
  total_quantity = pos (n * size);
  slices = pos n;
  filled = pos (k * size);
}

new_even :
    (total n : ℕ) {s : VwapSchedule}
    → new (pos total) (pos n) ≡ ok s
    → (0 < n)
      × (total % n ≡ 0)
      × (s ≡ record { total_quantity = pos total; slices = pos n; filled = pos 0 })
unfolding new divides
new_even total n h = (ground arith, ground arith, ground arith)

mul_le : (k n size : ℕ) → k < n → k * size + size ≤ n * size
mul_le k n size h = grind arith

all_done : (n size k : ℕ) → 0 < size → k ≤ n → n * size ≤ k * size → k ≡ n
all_done n size k p l h = grind arith

abbrev filled_at : ℕ → ℕ → ℕ → VwapSchedule
filled_at n size f = record { total_quantity = pos (n * size); slices = pos n; filled = pos f }

zero_div : (n : ℕ) → 0 < n → 0 / n ≡ 0
zero_div n h = grind arith

next_lem : (n size k : ℕ) → k < n → 0 < size → next_slice (done_of n size k) ≡ pos size
unfolding next_slice quotient
next_lem n size k h p =
    let e : n * size / n ≡ size = mul-div_cancel_left size (omega arith) in
    let f : 0 / n ≡ 0 = zero_div n (omega arith) in ground (arith, e, f, mul_le k n size h)

add_pos : (a b : ℕ) → a + b < 2 ^ 63 → add_i64 (pos a) (pos b) ≡ pos (a + b)
add_pos a b h =
    let e : pos a +ℤ pos b ≡ pos (a + b) = omega int_laws in
    add_i64_exact (pos a) (pos b) (rw e (record { low = omega arith; high = omega arith })) ∙ e

round_lem :
    (n size k : ℕ)
    → k < n
    → 0 < size
    → n * size < 2 ^ 63
    → record_fill (done_of n size k) (next_slice (done_of n size k)) ≡ done_of n size (suc k)
unfolding record_fill
round_lem n size k h p b = rw (next_lem n size k h p) (
    rw (add_pos (k * size) size (omega (arith, mul_le k n size h)))
      (ground (arith, mul_le k n size h)))

rounds_from :
    (n size j k : ℕ)
    → j + k ≤ n
    → 0 < size
    → n * size < 2 ^ 63
    → rounds j (done_of n size k) ≡ done_of n size (j + k)
unfolding rounds
rounds_from n size zero k h p b = ap (done_of n size) (omega arith)
rounds_from n size (suc j) k h p b =
    rw (round_lem n size k (omega arith) p b)
      (rounds_from n size j (suc k) (omega arith) p b ∙ ap (done_of n size) (omega arith))

-- A schedule that `new` accepts for n slices of a positive size, the total below 2^63, has
-- recorded k slices after k rounds, for k at most n, and is complete then exactly if k is n.
pub schedule_completes :
    (n size k : ℕ) {s : VwapSchedule}
    → 0 < size
    → n * size < 2 ^ 63
    → new (pos (n * size)) (pos n) ≡ ok s
    → k ≤ n
    → ((rounds k s).filled ≡ pos (k * size)) × ((complete (rounds k s) ≡ true) ↔ (k ≡ n))
unfolding complete
schedule_completes n size k {s} p b h l =
    let (positive, even, e) = new_even (n * size) n h in
    let start : s ≡ done_of n size 0 = e ∙ ap (filled_at n size) (omega arith) in
    let after_k : rounds k s ≡ done_of n size k =
      ap (rounds k) start
      ∙ (rounds_from n size k 0 (omega arith) p b ∙ ap (done_of n size) (omega arith)) in
    rw after_k
      (refl, (λ full. all_done n size k p l (ground arith), λ last. rw last (ground arith)))
