-- ===== src/Execution/Gateway/Once.antt =====
-- No order is sent twice, over any sequence of submissions.
use loss_function.Prelude.{
  Bool, true, false, ◌||◌, ◌≡◌, refl, ap, ◌∙◌, ◌≢◌, ◌⊎◌, inl, inr, none, List, [], ◌∷◌, ◌++◌,
  Result, ok, err, arith, is_some, Option-cases, Bool-cases,
}
use loss_function.Prelude.Keys.{beq_refl, beq_ne}
use loss_function.Prelude.Text.{Text, text_eq, bytes}
use loss_function.Prelude.Maps.{contains}
use loss_function.Domain.{OrderStatus, pending, submitted}
use loss_function.Domain.Order.{Order}
use loss_function.Broker.{
  OrderAck, BrokerError, unknown_symbol, not_open, insufficient_position, unknown_order, rejected,
  internal, error_text, Broker,
}
use loss_function.Execution.StateMachine.{
  StateMachine, TransitionError, status, transition, mark_unknown,
}
use loss_function.Execution.StateMachine.Steps.{transition_others, mark_unknown_others}
use loss_function.Execution.StateMachine.Audit.{status-with_order}
use loss_function.Execution.Gateway.{
  SubmitError, duplicate, timeout, World, request_of, after, settle, submit,
}
use loss_function.Execution.Gateway.Submission.{
  IsKnown, duplicate_refused, fresh_settled, called, submit_fresh,
}

module _ {T S : Type 0} where
  -- What follows a call of the machine leaves the machine as the call left it.
  after_machine :
      {A : Type 0} (w : World T S) (r : Result TransitionError OrderStatus × StateMachine T)
      (k : World T S → Result SubmitError A × World T S)
      → ((x : World T S) → (k x).1.machine ≡ x.machine)
      → (after w r k).1.machine ≡ r.1
  unfolding after
  after_machine w (ok s, m) k h = h (record w { machine = m })
  after_machine w (err e, m) k h = refl

  gives_up_others :
      (w : World T S) (id j : Text) (e : BrokerError) (reason : Text) (now : T)
      → j ≢ id
      → status
          (after w (mark_unknown w.machine id reason now) (λ x.
            let r : Result SubmitError OrderAck × World T S = (err (timeout (error_text e)), x) in
            r)).1.machine
          j
        ≡ status w.machine j
  gives_up_others w id j e reason now h =
      ap (λ m. status m j) (after_machine w (mark_unknown w.machine id reason now) _ (λ x. refl))
      ∙ mark_unknown_others w.machine id j reason now h

  settle_others :
      (w : World T S) (id j : Text) (answer : Result BrokerError OrderAck) (now : T)
      → j ≢ id
      → status (settle w id answer now).1.machine j ≡ status w.machine j
  unfolding settle
  settle_others w id j (ok ack) now h =
      let reason = bytes "broker ack " ++ ack.broker_order_id in
      ap (λ m. status m j)
        (after_machine w (transition w.machine id submitted reason now) _ (λ x. refl))
      ∙ (transition_others w.machine id j submitted reason now h).0
  settle_others w id j (err (rejected m)) now h =
      let reason = bytes "broker rejected: " ++ error_text (rejected m) in
      ap (λ m. status m j)
        (after_machine w (transition w.machine id OrderStatus.rejected reason now) _ (λ x. refl))
      ∙ (transition_others w.machine id j OrderStatus.rejected reason now h).0
  settle_others w id j (err (internal m)) now h = gives_up_others w id j (internal m) _ now h
  settle_others w id j (err (unknown_symbol m)) now h =
      gives_up_others w id j (unknown_symbol m) _ now h
  settle_others w id j (err (not_open m)) now h = gives_up_others w id j (not_open m) _ now h
  settle_others w id j (err (insufficient_position m)) now h =
      gives_up_others w id j (insufficient_position m) _ now h
  settle_others w id j (err (unknown_order m)) now h =
      gives_up_others w id j (unknown_order m) _ now h

-- Whether the gateway knows an order, decided.
pub IsKnown-or_fresh :
    {T S : Type 0} (w : World T S) (id : Text)
    → IsKnown w id ⊎ ((contains id w.broker_ids ≡ false) × (status w.machine id ≡ none))
IsKnown-or_fresh w id = elim (Bool-cases (contains id w.broker_ids)) [
  | inl c ↦ inl (inl c)
  | inr c ↦ elim (Option-cases (status w.machine id)) [
    | inl s ↦ inr (c, s)
    | inr (x, s) ↦ inl (inr (rw s refl))
  ]
]

module _ {P T S : Type 0} (broker : Broker P T S) where
  -- A submission leaves the statuses of all other orders alone.
  submit_others :
      (w : World T S) (o : Order P) (j : Text) (now : T)
      → contains o.client_order_id w.broker_ids ≡ false
      → status w.machine o.client_order_id ≡ none
      → j ≢ o.client_order_id
      → status (submit broker w o now).1.machine j ≡ status w.machine j
  submit_others w o j now c s h =
      let id = o.client_order_id in
      let answer = (broker.submit_order w.venue (request_of o)).0 in
      rw (submit_fresh broker w o now c s) (
        settle_others (called broker w o) id j answer now h
        ∙ (status-with_order w.machine id pending j ∙ rw (beq_ne j id h)))

  submit-IsKnown :
      (w : World T S) (o : Order P) (now : T) → IsKnown (submit broker w o now).1 o.client_order_id
  submit-IsKnown w o now = elim (IsKnown-or_fresh w o.client_order_id) [
    | inl k ↦ rw (duplicate_refused broker w o now k) k
    | inr (c, s) ↦ inr (rw ((fresh_settled broker w o now c s).1) refl)
  ]

  -- After a submission, whatever came of it, the same order is refused as a duplicate and the second
  -- attempt changes nothing: a timed-out order is not sent again.
  pub resubmission_refused :
      (w : World T S) (o : Order P) (first later : T)
      → let w' = (submit broker w o first).1 in
        submit broker w' o later ≡ (err (duplicate o.client_order_id), w')
  resubmission_refused w o first later =
      duplicate_refused broker (submit broker w o first).1 o later (submit-IsKnown w o first)

-- Whether a text is in a list, and lists without repetition.
abbrev pub has : Text → List Text → Bool
has t [] = false
has t (x ∷ xs) = text_eq.beq t x || has t xs

abbrev pub Distinct : List Text → Type 0
Distinct [] = Unit
Distinct (x ∷ xs) = (has x xs ≡ false) × Distinct xs

module _ {P T S : Type 0} (broker : Broker P T S) where
  -- The venue, with the ids of all submissions that reach it, the latest first.
  abbrev pub logged : Broker P T (S × List Text)
  logged = record {
    submit_order = λ (s, log) r.
        let (answer, s') = broker.submit_order s r in (answer, (s', r.client_order_id ∷ log));
    cancel_order =
        λ (s, log) id. let (answer, s') = broker.cancel_order s id in (answer, (s', log));
    execution_report =
        λ (s, log) id. let (answer, s') = broker.execution_report s id in (answer, (s', log));
    positions = λ (s, log). let (answer, s') = broker.positions s in (answer, (s', log));
    quote = λ (s, log) x. let (answer, s') = broker.quote s x in (answer, (s', log));
  }

  -- A run of submissions, each with the clock's reading; the caller goes on whatever comes of one.
  pub submit_all : World T (S × List Text) → List (Order P × T) → World T (S × List Text)
  submit_all w [] = w
  submit_all w ((o, now) ∷ os) = submit_all (submit logged w o now).1 os

  -- Every order that reached the venue has a status, and none reached it twice.
  abbrev pub IsOnce : World T (S × List Text) → Type 0
  IsOnce w =
      Distinct w.venue.1
      × ((id : Text) → has id w.venue.1 ≡ true → is_some (status w.machine id) ≡ true)

  fresh-IsOnce :
      (w : World T (S × List Text)) (o : Order P) (now : T)
      → IsOnce w
      → contains o.client_order_id w.broker_ids ≡ false
      → status w.machine o.client_order_id ≡ none
      → IsOnce (submit logged w o now).1
  unfolding request_of
  fresh-IsOnce w o now h c s =
      let id = o.client_order_id in
      let settled = fresh_settled logged w o now c s in
      rw (settled.2) (
        (unsent, h.0),
        λ j sent. elim (Bool-cases (text_eq.beq j id)) [
          | inl own ↦ rw ((text_eq.beq_iff j id).0 own) (rw (settled.1) refl)
          | inr other ↦
              rw (submit_others logged w o j now c s (λ e. cc (other, e, beq_refl j)))
                (h.1 j (rw other at sent))
        ],
      )
    where
      unsent : has o.client_order_id w.venue.1 ≡ false
      unsent = ground (arith, h.1 o.client_order_id)

  pub submit-IsOnce :
      (w : World T (S × List Text)) (o : Order P) (now : T)
      → IsOnce w
      → IsOnce (submit logged w o now).1
  submit-IsOnce w o now h = elim (IsKnown-or_fresh w o.client_order_id) [
    | inl k ↦ rw (duplicate_refused logged w o now k) h
    | inr (c, s) ↦ fresh-IsOnce w o now h c s
  ]

  -- If the orders that reached the venue so far are distinct and each has a status, which holds of
  -- a new gateway, then no run of submissions, whatever the venue answers, makes the venue receive
  -- an order twice.
  pub sent_once :
      (w : World T (S × List Text)) (os : List (Order P × T))
      → IsOnce w
      → Distinct (submit_all w os).venue.1
  unfolding submit_all
  sent_once w [] h = h.0
  sent_once w ((o, now) ∷ os) h = sent_once (submit logged w o now).1 os (submit-IsOnce w o now h)
