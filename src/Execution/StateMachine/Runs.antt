-- ===== src/Execution/StateMachine/Runs.antt =====
-- What holds of a machine after any sequence of calls.
use loss_function.Prelude.{
  true, ◌≡◌, refl, ap, inl, inr, Option, none, some, List, [], ◌∷◌, arith, if◌then◌else◌,
  Option-cases, Bool-cases,
}
use loss_function.Prelude.Text.{Text, text_eq}
use loss_function.Domain.{OrderStatus, unknown}
use loss_function.Execution.StateMachine.{
  can_transition, unknown_entry_allowed_from, TransitionEvent, StateMachine, status, register,
  record_event, transition, mark_unknown,
}
use loss_function.Execution.StateMachine.Table.{◌⟶◌}
use loss_function.Execution.StateMachine.Steps.{
  event_of, transition_at, transition_missing, mark_unknown_exact, allowed_unknown,
}

-- The calls that change a machine, with the clock's reading where the call takes one.
pub data Call (T : Type 0) : Type 0 where
  registers : Text → OrderStatus → Call T
  moves : Text → OrderStatus → Text → T → Call T
  loses : Text → Text → T → Call T

-- The events lead from one status to another along the table.
abbrev pub Chain : {T : Type 0} → OrderStatus → List (TransitionEvent T) → OrderStatus → Type 0
Chain s [] t = s ≡ t
Chain s (e ∷ es) t = (e.from_status ≡ s) × (s ⟶ e.to_status) × Chain e.to_status es t

-- The history explains the status.
abbrev pub Explains : {T : Type 0} → List (TransitionEvent T) → Option OrderStatus → Type 0
Explains es none = es ≡ []
Explains es (some t) = (s : OrderStatus) × Chain s es t

-- The events of one order.
abbrev pub events_for : {T : Type 0} → Text → List (TransitionEvent T) → List (TransitionEvent T)
events_for id [] = []
events_for id (e ∷ es) =
    let rest = events_for id es in if text_eq.beq id e.client_order_id then e ∷ rest else rest

module _ {T : Type 0} where
  unfoldable pub call : StateMachine T → Call T → StateMachine T
  call m (registers id s) = (register m id s).1
  call m (moves id to reason now) = (transition m id to reason now).1
  call m (loses id reason now) = (mark_unknown m id reason now).1

  unfoldable pub run : StateMachine T → List (Call T) → StateMachine T
  run m [] = m
  run m (c ∷ cs) = run (call m c) cs

  -- A call either leaves the machine, registers a new order, or records a legal event.
  pub data Effect (m : StateMachine T) : StateMachine T → Type 0 where
    nothing : Effect m m
    registered :
        (id : Text) (s : OrderStatus) {m' : StateMachine T}
        → status m id ≡ none
        → m' ≡ (register m id s).1
        → Effect m m'
    recorded :
        (e : TransitionEvent T) {m' : StateMachine T}
        → status m e.client_order_id ≡ some e.from_status
        → can_transition e.from_status e.to_status ≡ true
        → m' ≡ record_event m e
        → Effect m m'

  -- an effect, from an equation for the machine that the call leaves
  same : {m m' : StateMachine T} → m' ≡ m → Effect m m'
  same {m} e = rw e nothing

  pub transition-Effect :
      (m : StateMachine T) (id : Text) (to : OrderStatus) (reason : Text) (now : T)
      → Effect m (transition m id to reason now).1
  transition-Effect m id to reason now = elim (Option-cases (status m id)) [
    | inl missing ↦ same (ap (λ p. p.1) (transition_missing m id to reason now missing))
    | inr (from, s) ↦ elim (Bool-cases (can_transition from to)) [
      | inl legal ↦
          recorded (event_of id from to reason now) s legal
            (rw (transition_at m id from to reason now s) (rw legal))
      | inr blocked ↦ same (rw (transition_at m id from to reason now s) (rw blocked))
    ]
  ]

  pub register-Effect :
      (m : StateMachine T) (id : Text) (s : OrderStatus) → Effect m (register m id s).1
  register-Effect m id s = elim (Option-cases (status m id)) [
    | inl missing ↦ registered id s missing refl
    | inr (t, e) ↦ same (unfold register in ground (arith, e))
  ]

  mark_unknown-Effect :
      (m : StateMachine T) (id reason : Text) (now : T) → Effect m (mark_unknown m id reason now).1
  mark_unknown-Effect m id reason now = elim (Option-cases (status m id)) [
    | inl missing ↦ same (unfold mark_unknown in ground (arith, missing))
    | inr (s, e) ↦ elim (Bool-cases (unknown_entry_allowed_from s)) [
      | inl allowed ↦
          recorded (event_of id s unknown reason now) e (allowed_unknown s allowed)
            (rw (mark_unknown_exact m id reason now s e) (rw allowed))
      | inr shut ↦ same (rw (mark_unknown_exact m id reason now s e) (rw shut))
    ]
  ]

  pub call-Effect : (m : StateMachine T) (c : Call T) → Effect m (call m c)
  unfolding call
  call-Effect m (registers id s) = register-Effect m id s
  call-Effect m (moves id to reason now) = transition-Effect m id to reason now
  call-Effect m (loses id reason now) = mark_unknown-Effect m id reason now
