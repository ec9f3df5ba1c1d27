-- ===== src/Execution/StateMachine/Audit.antt =====
-- The audit trail: the history explains every status, and the callback saw every event once.
use loss_function.Prelude.{
  true, false, ◌≡◌, refl, sym, ap, ◌∙◌, inl, inr, Option, none, some, List, [], ◌∷◌, ◌++◌, ok,
  arith, if◌then◌else◌, Bool-cases,
}
use loss_function.Prelude.Text.{Text, text_eq}
use loss_function.Prelude.Maps.{insert, lookup-insert}
use loss_function.Domain.{OrderStatus}
use loss_function.Domain.Order.{terminal}
use loss_function.Execution.StateMachine.{
  can_transition, TransitionEvent, StateMachine, status, events, register, record_event,
}
use loss_function.Execution.StateMachine.Table.{◌⟶◌, can_transition-⟶, live_source}
use loss_function.Execution.StateMachine.Steps.{
  status-record_event, events-record_event, emitted-record_event,
}
use loss_function.Execution.StateMachine.Runs.{
  Call, Chain, Explains, events_for, call, run, Effect, nothing, registered, recorded, call-Effect,
}

some_inj : {a b : OrderStatus} → some a ≡ some b → a ≡ b
some_inj h = cc

module _ {T : Type 0} where
  -- What `register` leaves for a new order.
  abbrev pub with_order : StateMachine T → Text → OrderStatus → StateMachine T
  with_order m id s = record m {
    statuses = insert id s m.statuses;
    history = insert id (events m id) m.history;
  }

  pub register_new :
      (m : StateMachine T) (id : Text) (s : OrderStatus)
      → status m id ≡ none
      → register m id s ≡ (ok tt, with_order m id s)
  unfolding register
  register_new m id s h = ground arith

  pub status-with_order :
      (m : StateMachine T) (id : Text) (s : OrderStatus) (j : Text)
      → status (with_order m id s) j ≡ (if text_eq.beq j id then some s else status m j)
  unfolding status
  status-with_order m id s j = lookup-insert j id s m.statuses

  pub events-with_order :
      (m : StateMachine T) (id : Text) (s : OrderStatus) (j : Text)
      → events (with_order m id s) j ≡ events m j
  unfolding events
  events-with_order m id s j =
      rw (lookup-insert j id (events m id) m.history) (ground (arith, text_eq.beq_iff j id))

  Chain-snoc :
      (s t : OrderStatus) (es : List (TransitionEvent T)) (e : TransitionEvent T)
      → Chain s es t
      → e.from_status ≡ t
      → t ⟶ e.to_status
      → Chain s (es ++ e ∷ []) e.to_status
  Chain-snoc s t [] e c f step = (f ∙ sym c, rw c step, refl)
  Chain-snoc s t (x ∷ es) e c f step = (c.0, c.1, Chain-snoc x.to_status t es e c.2 f step)

  -- Every order's history explains its status.
  abbrev pub IsExplained : StateMachine T → Type 0
  IsExplained m = (id : Text) → Explains (events m id) (status m id)

  Explains-snoc :
      (es : List (TransitionEvent T)) (o : Option OrderStatus) (e : TransitionEvent T)
      → Explains es o
      → o ≡ some e.from_status
      → can_transition e.from_status e.to_status ≡ true
      → Explains (es ++ e ∷ []) (some e.to_status)
  Explains-snoc es none e x h l = cc
  Explains-snoc es (some t) e (s, c) h l =
      let same : t ≡ e.from_status = some_inj h in
      (s, Chain-snoc s t es e c (sym same) (rw same (can_transition-⟶ _ _ l)))

  own_or_old :
      (m : StateMachine T) (id : Text) (s : OrderStatus) (j : Text)
      → status m id ≡ none
      → Explains (events m j) (status m j)
      → Explains (events m j) (if text_eq.beq j id then some s else status m j)
  own_or_old m id s j missing h = elim (Bool-cases (text_eq.beq j id)) [
    | inl own ↦
        let e : status m j ≡ none = rw ((text_eq.beq_iff j id).0 own) missing in
        rw own (s, rw (rw e at h) refl)
    | inr other ↦ rw other h
  ]

  Effect-IsExplained : {m m' : StateMachine T} → Effect m m' → IsExplained m → IsExplained m'
  Effect-IsExplained nothing h = h
  Effect-IsExplained {m} (registered id s missing e) h =
      rw (e, register_new m id s missing)
        λ j.
          rw (status-with_order m id s j)
            (rw (events-with_order m id s j) (own_or_old m id s j missing (h j)))
  Effect-IsExplained {m} (recorded e s legal eq) h = rw eq λ j. rw (status-record_event m e j) (
      rw (events-record_event m e j) (elim (Bool-cases (text_eq.beq j e.client_order_id)) [
        | inl own ↦ rw own (Explains-snoc _ _ e (h e.client_order_id) s legal)
        | inr other ↦ rw other (h j)
      ]))

  -- Whatever calls are made on a machine whose histories explain its statuses, the histories go on
  -- to do so: each is a path of the table that ends at the order's status.
  pub run-IsExplained :
      (m : StateMachine T) (cs : List (Call T)) → IsExplained m → IsExplained (run m cs)
  unfolding run
  run-IsExplained m [] h = h
  run-IsExplained m (c ∷ cs) h =
      run-IsExplained (call m c) cs (Effect-IsExplained (call-Effect m c) h)

  -- The callback's log, read for one order, is that order's history.
  abbrev pub IsEchoed : StateMachine T → Type 0
  IsEchoed m = (m.on_event ≡ true) × ((id : Text) → events_for id m.emitted ≡ events m id)

  events_for-snoc :
      (id : Text) (es : List (TransitionEvent T)) (e : TransitionEvent T)
      → events_for id (es ++ e ∷ []) ≡ (
          if text_eq.beq id e.client_order_id then events_for id es ++ e ∷ [] else events_for id es)
  events_for-snoc id [] e = refl
  events_for-snoc id (x ∷ es) e = rw (events_for-snoc id es e) (ground arith)

  on_event-record_event :
      (m : StateMachine T) (e : TransitionEvent T) → (record_event m e).on_event ≡ m.on_event
  unfolding record_event
  on_event-record_event m e = refl

  echo_step :
      (m : StateMachine T) (e : TransitionEvent T) (j : Text)
      → IsEchoed m
      → events_for j (record_event m e).emitted ≡ events (record_event m e) j
  unfolding events
  echo_step m e j h = rw (events-record_event m e j) (
      rw (emitted-record_event m e) (
        rw h.0 (
          rw (events_for-snoc j m.emitted e) (elim (Bool-cases (text_eq.beq j e.client_order_id)) [
            | inl own ↦ rw own (
                ap (λ es. es ++ e ∷ [])
                  (h.1 j ∙ ap (events m) ((text_eq.beq_iff j e.client_order_id).0 own)))
            | inr other ↦ rw other (h.1 j)
          ]))))

  -- A legal event is none of an order that is terminal.
  not_terminal :
      (m : StateMachine T) (e : TransitionEvent T) (id : Text) (s : OrderStatus)
      → status m e.client_order_id ≡ some e.from_status
      → can_transition e.from_status e.to_status ≡ true
      → status m id ≡ some s
      → terminal s ≡ true
      → text_eq.beq id e.client_order_id ≡ false
  not_terminal m e id s from legal h t = elim (Bool-cases (text_eq.beq id e.client_order_id)) [
    | inl own ↦ cc (
      ap (status m) ((text_eq.beq_iff id e.client_order_id).0 own),
      live_source (can_transition-⟶ _ _ legal),
    )
    | inr other ↦ other
  ]

  Effect-IsEchoed : {m m' : StateMachine T} → Effect m m' → IsEchoed m → IsEchoed m'
  Effect-IsEchoed nothing h = h
  Effect-IsEchoed {m} (registered id s missing e) h =
      rw (e, register_new m id s missing) (h.0, λ j. rw (events-with_order m id s j) (h.1 j))
  Effect-IsEchoed {m} (recorded e s legal eq) h =
      rw eq (rw (on_event-record_event m e) h.0, λ j. echo_step m e j h)

  -- If a callback is set and its calls so far, read for one order, are that order's history, then
  -- this still holds after any calls on the machine.
  pub run-IsEchoed : (m : StateMachine T) (cs : List (Call T)) → IsEchoed m → IsEchoed (run m cs)
  unfolding run
  run-IsEchoed m [] h = h
  run-IsEchoed m (c ∷ cs) h = run-IsEchoed (call m c) cs (Effect-IsEchoed (call-Effect m c) h)

  Effect-terminal :
      {m m' : StateMachine T} (id : Text) (s : OrderStatus)
      → Effect m m'
      → status m id ≡ some s
      → terminal s ≡ true
      → (status m' id ≡ some s) × (events m' id ≡ events m id)
  Effect-terminal id s nothing h t = (h, refl)
  Effect-terminal {m} id s (registered j r missing e) h t =
      rw (e, register_new m j r missing)
        (
          rw (status-with_order m j r id) (ground (arith, text_eq.beq_iff id j)),
          events-with_order m j r id,
        )
  Effect-terminal {m} id s (recorded e from legal eq) h t =
      let other = not_terminal m e id s from legal h t in
      rw eq
        (rw (status-record_event m e id) (rw other h), rw (events-record_event m e id) (rw other))

  -- An order whose status is terminal keeps it, and its history, through every later call.
  pub terminal_final :
      (m : StateMachine T) (id : Text) (s : OrderStatus) (cs : List (Call T))
      → status m id ≡ some s
      → terminal s ≡ true
      → (status (run m cs) id ≡ some s) × (events (run m cs) id ≡ events m id)
  unfolding run
  terminal_final m id s [] h t = (h, refl)
  terminal_final m id s (c ∷ cs) h t =
      let (kept, same) = Effect-terminal id s (call-Effect m c) h t in
      let (later, still) = terminal_final (call m c) id s cs kept t in (later, still ∙ same)
