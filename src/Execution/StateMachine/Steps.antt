-- ===== src/Execution/StateMachine/Steps.antt =====
-- What one call does to the machine.
use loss_function.Prelude.{
  true, false, ◌≡◌, refl, sym, ◌≢◌, ◌⊎◌, inl, inr, none, some, [], ◌∷◌, ◌++◌, ok, err, arith,
  if◌then◌else◌, Option-cases, Bool-cases, err-injective,
}
use loss_function.Prelude.Keys.{beq_refl, beq_ne}
use loss_function.Prelude.Text.{Text, text_eq}
use loss_function.Prelude.Maps.{lookup-insert}
use loss_function.Domain.{OrderStatus, unknown}
use loss_function.Execution.StateMachine.{
  can_transition, unknown_entry_allowed_from, TransitionEvent, TransitionError, illegal,
  unknown_entry_blocked, unregistered, StateMachine, status, events, record_event, transition,
  mark_unknown,
}

pub allowed_unknown :
    (s : OrderStatus) → unknown_entry_allowed_from s ≡ true → can_transition s unknown ≡ true
unfolding can_transition unknown_entry_allowed_from
allowed_unknown s h = ground arith

module _ {T : Type 0} where
  pub status-record_event :
      (m : StateMachine T) (e : TransitionEvent T) (j : Text)
      → status (record_event m e) j
        ≡ (if text_eq.beq j e.client_order_id then some e.to_status else status m j)
  unfolding status record_event
  status-record_event m e j = lookup-insert j e.client_order_id e.to_status m.statuses

  pub events-record_event :
      (m : StateMachine T) (e : TransitionEvent T) (j : Text)
      → events (record_event m e) j ≡ (
          if text_eq.beq j e.client_order_id
          then events m e.client_order_id ++ e ∷ []
          else events m j)
  unfolding events record_event
  events-record_event m e j = rw lookup-insert (ground arith)

  pub emitted-record_event :
      (m : StateMachine T) (e : TransitionEvent T)
      → (record_event m e).emitted ≡ (if m.on_event then m.emitted ++ e ∷ [] else m.emitted)
  unfolding record_event
  emitted-record_event m e = refl

  -- The event that a transition records.
  abbrev pub event_of : Text → OrderStatus → OrderStatus → Text → T → TransitionEvent T
  event_of id from to reason now = record {
    client_order_id = id;
    from_status = from;
    to_status = to;
    reason = reason;
    occurred_at = now;
  }

  pub transition_at :
      (m : StateMachine T) (id : Text) (from to : OrderStatus) (reason : Text) (now : T)
      → status m id ≡ some from
      → transition m id to reason now ≡ (
          if can_transition from to
          then (ok to, record_event m (event_of id from to reason now))
          else (err (illegal id from to), m))
  unfolding transition
  transition_at m id from to reason now s = ground arith

  pub transition_missing :
      (m : StateMachine T) (id : Text) (to : OrderStatus) (reason : Text) (now : T)
      → status m id ≡ none
      → transition m id to reason now ≡ (err (unregistered id), m)
  unfolding transition
  transition_missing m id to reason now s = ground arith

  -- If an order is registered and the table allows the move, the transition returns the new
  -- status, which the order then has, and appends one event to its history and, where a callback
  -- is set, to the calls of the callback.
  pub transition_legal :
      (m : StateMachine T) (id : Text) (from to : OrderStatus) (reason : Text) (now : T)
      → status m id ≡ some from
      → can_transition from to ≡ true
      → let (r, m') = transition m id to reason now in
        (r ≡ ok to)
        × (status m' id ≡ some to)
        × (events m' id ≡ events m id ++ event_of id from to reason now ∷ [])
        × (m'.emitted
            ≡ (if m.on_event then m.emitted ++ event_of id from to reason now ∷ [] else m.emitted))
  transition_legal m id from to reason now s c =
      let e = event_of id from to reason now in
      rw (transition_at m id from to reason now s) (
        rw c (
          refl,
          rw (status-record_event m e id) (rw (beq_refl id)),
          rw (events-record_event m e id) (rw (beq_refl id)),
          emitted-record_event m e,
        ))

  -- A transition that returns an error leaves the machine as it was: no event, no callback, no
  -- status. The error says that the order is unregistered, or that the table forbids the move from
  -- its status.
  pub transition_refused :
      (m : StateMachine T) (id : Text) (to : OrderStatus) (reason : Text) (now : T)
      {e : TransitionError}
      → (transition m id to reason now).0 ≡ err e
      → ((transition m id to reason now).1 ≡ m)
        × ((e ≡ unregistered id) × (status m id ≡ none)
            ⊎ ((from : OrderStatus) × (e ≡ illegal id from to)
                × (status m id ≡ some from)
                × (can_transition from to ≡ false)))
  transition_refused m id to reason now {e} h = elim (Option-cases (status m id)) [
    | inl missing ↦
        let at_m = transition_missing m id to reason now missing in
        (rw at_m, inl (sym (err-injective (rw at_m at h)), missing))
    | inr (from, s) ↦ elim (Bool-cases (can_transition from to)) [
      | inl legal ↦ let at_m = transition_at m id from to reason now s in cc (rw (at_m, legal) at h)
      | inr blocked ↦
          let at_m = transition_at m id from to reason now s in
          (
            rw at_m (rw blocked),
            inr (from, sym (err-injective (rw (at_m, blocked) at h)), s, blocked),
          )
    ]
  ]

  -- A transition of one order touches neither the status nor the history of another.
  pub transition_others :
      (m : StateMachine T) (id j : Text) (to : OrderStatus) (reason : Text) (now : T)
      → j ≢ id
      → let m' = (transition m id to reason now).1 in
        (status m' j ≡ status m j) × (events m' j ≡ events m j)
  transition_others m id j to reason now h = elim (Option-cases (status m id)) [
    | inl missing ↦ rw (transition_missing m id to reason now missing) (refl, refl)
    | inr (from, s) ↦ elim (Bool-cases (can_transition from to)) [
      | inl legal ↦
          let e = event_of id from to reason now in
          rw (transition_at m id from to reason now s) (
            rw legal (
              rw (status-record_event m e j) (rw (beq_ne j id h)),
              rw (events-record_event m e j) (rw (beq_ne j id h)),
            ))
      | inr blocked ↦ rw (transition_at m id from to reason now s) (rw blocked (refl, refl))
    ]
  ]

  -- Unknown is entered by `mark_unknown` only from `pending` or `submitted`, and then always.
  pub mark_unknown_exact :
      (m : StateMachine T) (id reason : Text) (now : T) (s : OrderStatus)
      → status m id ≡ some s
      → mark_unknown m id reason now ≡ (
          if unknown_entry_allowed_from s
          then (ok unknown, record_event m (event_of id s unknown reason now))
          else (err (unknown_entry_blocked id s), m))
  unfolding mark_unknown
  mark_unknown_exact m id reason now s h =
      ground (arith, allowed_unknown s, transition_at m id s unknown reason now h)

  pub mark_unknown_others :
      (m : StateMachine T) (id j reason : Text) (now : T)
      → j ≢ id
      → status (mark_unknown m id reason now).1 j ≡ status m j
  unfolding mark_unknown
  mark_unknown_others m id j reason now h =
      ground (arith, transition_others m id j unknown reason now h)
