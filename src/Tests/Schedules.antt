-- ===== src/Tests/Schedules.antt =====
-- The sliced execution and the history window at concrete inputs.
use loss_function.Prelude.{ℕ, ◌≡◌, refl, ◌↔◌, true, List, [], ◌∷◌, arith}
use loss_function.Prelude.Int.{ℤ, pos}
use loss_function.Types.{Symbol}
use loss_function.Execution.Vwap.{VwapSchedule, new, complete, divides}
use loss_function.Execution.Vwap.Schedule.{rounds, schedule_completes}
use loss_function.History as History
use loss_function.History.{queue, sma}
use loss_function.History.Window.{latest, closes_of, push_all, window_exact}
use loss_function.Tests.Samples.{whole, samsung, hynix}

abbrev thirty : VwapSchedule
thirty = record { total_quantity = pos 30; slices = pos 3; filled = pos 0 }

schedule_completes_example :
    ((rounds 2 thirty).filled ≡ pos 20) × ((complete (rounds 2 thirty) ≡ true) ↔ (◌≡◌ {A = ℕ} 2 3))
unfolding new divides
schedule_completes_example =
    schedule_completes 3 10 2 {s = thirty} (ground arith) (ground arith) refl (ground arith)

abbrev two_closes : History.HistoryWindow ℤ
two_closes = record { capacity = 2; inner = [] }

abbrev closes : List (Symbol × ℤ)
closes = (samsung, pos 500) ∷ (hynix, pos 90) ∷ (samsung, pos 510) ∷ (samsung, pos 520) ∷ []

window_exact_example :
    queue (push_all two_closes closes) samsung ≡ latest 2 (closes_of samsung closes)
unfolding History.new
window_exact_example = window_exact 2 two_closes closes samsung refl
