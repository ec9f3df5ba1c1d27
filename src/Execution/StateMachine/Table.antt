-- ===== src/Execution/StateMachine/Table.antt =====
-- The transition table as a relation, and what it says of the lifecycle.
use loss_function.Prelude.{true, false, ◌≡◌, refl, ◌↔◌, inl, inr, Bool-cases, ◌≢◌, arith}
use loss_function.Domain.{
  OrderStatus, pending, submitted, partially_filled, filled, cancelled, rejected, unknown,
}
use loss_function.Domain.Order.{terminal}
use loss_function.Execution.StateMachine.{can_transition}

-- The lifecycle of an order. A lost answer leads to `unknown`, and from there any status but the
-- first is possible.
infix 40 ◌⟶◌ ◌⟶*◌
pub data ◌⟶◌ : OrderStatus → OrderStatus → Type 0 where
  accept : pending ⟶ submitted
  refuse : pending ⟶ rejected
  withdraw : pending ⟶ cancelled
  lose_submission : pending ⟶ unknown
  fill_part : submitted ⟶ partially_filled
  fill_all : submitted ⟶ filled
  cancel_open : submitted ⟶ cancelled
  refuse_late : submitted ⟶ rejected
  lose_answer : submitted ⟶ unknown
  fill_more : partially_filled ⟶ partially_filled
  fill_rest : partially_filled ⟶ filled
  cancel_rest : partially_filled ⟶ cancelled
  lose_track : partially_filled ⟶ unknown
  found_open : unknown ⟶ submitted
  found_part : unknown ⟶ partially_filled
  found_filled : unknown ⟶ filled
  found_cancelled : unknown ⟶ cancelled
  found_rejected : unknown ⟶ rejected

pub ruleset edges = (
  accept, refuse, withdraw, lose_submission, fill_part, fill_all, cancel_open, refuse_late,
  lose_answer, fill_more, fill_rest, cancel_rest, lose_track, found_open, found_part, found_filled,
  found_cancelled, found_rejected,
)

pub data ◌⟶*◌ : OrderStatus → OrderStatus → Type 0 where
  here : {s : OrderStatus} → s ⟶* s
  then_to : {s t u : OrderStatus} → s ⟶* t → t ⟶ u → s ⟶* u

pub can_transition-⟶ : (s t : OrderStatus) → can_transition s t ≡ true → s ⟶ t
unfolding can_transition
can_transition-⟶ s t h = grind (arith, edges)

pub ⟶-can_transition : {s t : OrderStatus} → s ⟶ t → can_transition s t ≡ true
unfolding can_transition
⟶-can_transition accept = refl
⟶-can_transition _ = refl

-- Every edge leaves a status that is not terminal.
pub live_source : {s t : OrderStatus} → s ⟶ t → terminal s ≡ false
unfolding terminal
live_source accept = refl
live_source _ = refl

no_edge_terminal : (s : OrderStatus) → ((t : OrderStatus) → ¬ (s ⟶ t)) → terminal s ≡ true
unfolding terminal
no_edge_terminal pending h = absurd (h submitted accept)
no_edge_terminal submitted h = absurd (h filled fill_all)
no_edge_terminal partially_filled h = absurd (h filled fill_rest)
no_edge_terminal unknown h = absurd (h filled found_filled)
no_edge_terminal filled h = refl
no_edge_terminal cancelled h = refl
no_edge_terminal rejected h = refl

-- A path of the order lifecycle that starts at a terminal status stays there.
pub terminal_absorbs : {s t : OrderStatus} → terminal s ≡ true → s ⟶* t → t ≡ s
terminal_absorbs h here = refl
terminal_absorbs h (then_to r e) = cc (terminal_absorbs h r, live_source e)

-- The statuses that the domain calls terminal are exactly those that the table of the state machine
-- does not lead out of.
pub terminal_exact :
    (s : OrderStatus) → (terminal s ≡ true) ↔ ((t : OrderStatus) → can_transition s t ≡ false)
terminal_exact s = (
  λ h t. elim (Bool-cases (can_transition s t)) [
    | inl step ↦ cc (live_source (can_transition-⟶ s t step), h)
    | inr stays ↦ stays
  ],
  λ h. no_edge_terminal s (λ t e. cc (⟶-can_transition e, h t)),
)

-- From `unknown` every status but `pending` is one step away, and `pending` is never entered again.
pub never_pending_again : {s t : OrderStatus} → s ⟶ t → t ≢ pending
never_pending_again accept h = cc
never_pending_again _ h = cc

-- Wherever an order stands, terminal or not, it can reach a terminal status.
pub reaches_terminal : (s : OrderStatus) → (t : OrderStatus) × (s ⟶* t) × (terminal t ≡ true)
unfolding terminal
reaches_terminal pending = (rejected, search (here, then_to, edges), refl)
reaches_terminal submitted = (filled, search (here, then_to, edges), refl)
reaches_terminal partially_filled = (filled, search (here, then_to, edges), refl)
reaches_terminal unknown = (filled, search (here, then_to, edges), refl)
reaches_terminal filled = (filled, here, refl)
reaches_terminal cancelled = (cancelled, here, refl)
reaches_terminal rejected = (rejected, here, refl)
