-- ===== src/Tests/Machine.antt =====
-- The order state machine at concrete calls. Instants are numbers.
use loss_function.Prelude.{ℕ, ◌≡◌, refl, ◌↔◌, true, false, some, List, [], ◌∷◌}
use loss_function.Prelude.Text.{text_eq}
use loss_function.Prelude.Maps.{lookup}
use loss_function.Domain.{OrderStatus, pending, submitted, filled}
use loss_function.Domain.Order.{terminal}
use loss_function.Execution.StateMachine.{
  can_transition, with_on_event, status, events, StateMachine,
}
use loss_function.Execution.StateMachine.Table.{terminal_exact}
use loss_function.Execution.StateMachine.Runs.{run, Call, registers, moves, loses}
use loss_function.Execution.StateMachine.Audit.{IsExplained, run-IsExplained, terminal_final}
use loss_function.Tests.Samples.{id_a}

-- one order that is submitted, with a callback set
abbrev one : StateMachine ℕ
one = record {
  statuses = (id_a, submitted) ∷ [];
  history = (id_a, []) ∷ [];
  on_event = true;
  emitted = [];
}

abbrev done : StateMachine ℕ
done = record one { statuses = (id_a, filled) ∷ [] }

abbrev calls : List (Call ℕ)
calls =
    registers id_a pending
    ∷ moves id_a submitted [] 1
    ∷ loses id_a [] 2
    ∷ moves id_a filled [] 3
    ∷ []

run-IsExplained_example : IsExplained (run with_on_event calls)
unfolding status events lookup
run-IsExplained_example = run-IsExplained with_on_event calls λ id. refl

terminal_final_example :
    (status (run done calls) id_a ≡ some filled) × (events (run done calls) id_a ≡ events done id_a)
unfolding status terminal lookup
terminal_final_example = terminal_final done id_a filled calls refl refl

terminal_exact_example :
    (terminal filled ≡ true) ↔ ((t : OrderStatus) → can_transition filled t ≡ false)
terminal_exact_example = terminal_exact filled
