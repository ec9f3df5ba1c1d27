-- ===== src/Execution/Gateway/Reconciliation.antt =====
-- Reconciliation against the venue's reports.
use loss_function.Prelude.{
  true, false, ◌≡◌, refl, sym, ap, ◌∙◌, ◌≢◌, ◌⊎◌, inl, inr, Option, none, some, Result, ok, err,
  arith, Option-cases,
}
use loss_function.Prelude.Int.{pos, ◌≤ℤ◌, ◌<ℤ◌}
use loss_function.Prelude.Keys.{beq_refl}
use loss_function.Prelude.Text.{Text, text_eq}
use loss_function.Domain.{
  OrderStatus, pending, submitted, partially_filled, filled, cancelled, unknown,
}
use loss_function.Broker.{ExecutionReport, BrokerError, rejected, unknown_order, error_text, Broker}
use loss_function.Execution.StateMachine.{
  StateMachine, status, transition, can_transition, status_eq,
}
use loss_function.Execution.StateMachine.Steps.{transition_at, status-record_event, event_of}
use loss_function.Execution.Gateway.{broker_failed, target_status, report_text, resolve, reconcile}

pub some_inj : {a b : OrderStatus} → some a ≡ some b → a ≡ b
some_inj h = cc

ok_inj : {E : Type 0} {a b : OrderStatus} → ◌≡◌ {A = Result E OrderStatus} (ok a) (ok b) → a ≡ b
ok_inj h = cc

pub unknown_or : (s : OrderStatus) → (s ≡ unknown) ⊎ (s ≢ unknown)
unknown_or unknown = inl refl
unknown_or pending = inr (λ h. cc)
unknown_or _ = inr (λ h. cc)

-- What a report says, apart from the code: open or closed, and how much is filled.
pub data Means {P T : Type 0} (r : ExecutionReport P T) : OrderStatus → Type 0 where
  all_filled : r.is_open ≡ false → r.order_quantity ≤ℤ r.filled_quantity → Means r filled
  part_filled : r.is_open ≡ true → pos 0 <ℤ r.filled_quantity → Means r partially_filled
  untouched : r.is_open ≡ true → r.filled_quantity ≤ℤ pos 0 → Means r submitted
  closed_early : r.is_open ≡ false → r.filled_quantity <ℤ r.order_quantity → Means r cancelled

module _ {T : Type 0} where
  transition_unknown :
      (m : StateMachine T) (id : Text) (to : OrderStatus) (reason : Text) (now : T)
      → status m id ≡ some unknown
      → can_transition unknown to ≡ true
      → ((transition m id to reason now).0 ≡ ok to)
        × (status (transition m id to reason now).1 id ≡ some to)
  transition_unknown m id to reason now s c = rw (transition_at m id unknown to reason now s) (
      rw c (
        refl,
        rw (status-record_event m (event_of id unknown to reason now) id) (rw (beq_refl id)),
      ))

module _ {P T : Type 0} where
  -- The status of a report is the one that it means: closed and filled for all its quantity is
  -- filled, open with something filled is partially filled, open with nothing filled is submitted,
  -- and closed with less than all filled is cancelled.
  pub target_status_exact :
      (r : ExecutionReport P T) {s : OrderStatus} → Means r s → target_status r ≡ s
  unfolding target_status
  target_status_exact r (all_filled o q) = ground arith
  target_status_exact r (part_filled o q) = ground arith
  target_status_exact r (untouched o q) = ground arith
  target_status_exact r (closed_early o q) = ground arith

  target_status_legal : (r : ExecutionReport P T) → can_transition unknown (target_status r) ≡ true
  unfolding target_status can_transition
  target_status_legal r = ground arith

  target_status_known : (r : ExecutionReport P T) → target_status r ≢ unknown
  unfolding target_status
  target_status_known r = ground arith

  -- The status that an answer of the venue calls for, if it calls for one.
  abbrev pub resolution : Result BrokerError (ExecutionReport P T) → Option OrderStatus
  resolution (ok r) = some (target_status r)
  resolution (err (unknown_order _)) = some OrderStatus.rejected
  resolution (err _) = none

  -- The same, by what a report says.
  pub data CallsFor : Result BrokerError (ExecutionReport P T) → OrderStatus → Type 0 where
    reported : {r : ExecutionReport P T} {s : OrderStatus} → Means r s → CallsFor (ok r) s
    not_found : {id : Text} → CallsFor (err (unknown_order id)) OrderStatus.rejected

  CallsFor-resolution :
      {answer : Result BrokerError (ExecutionReport P T)} {s : OrderStatus}
      → CallsFor answer s
      → resolution answer ≡ some s
  CallsFor-resolution (reported {r = r} h) = ap some (target_status_exact r h)
  CallsFor-resolution not_found = refl

  resolve_lem :
      (m : StateMachine T) (id : Text) (answer : Result BrokerError (ExecutionReport P T)) (now : T)
      {s : OrderStatus}
      → status m id ≡ some unknown
      → resolution answer ≡ some s
      → ((resolve m id answer now).0 ≡ ok s) × (status (resolve m id answer now).1 id ≡ some s)
  unfolding resolve can_transition
  resolve_lem m id (ok r) now h e =
      let (done, at_s) =
        transition_unknown m id (target_status r) (report_text r) now h (target_status_legal r) in
      (rw done (ap ok (some_inj e)), at_s ∙ e)
  resolve_lem m id (err (unknown_order x)) now h e =
      let (done, at_s) = transition_unknown m id OrderStatus.rejected _ now h refl in
      (rw done (ap ok (some_inj e)), at_s ∙ e)
  resolve_lem m id (err (rejected x)) now h e = cc
  resolve_lem m id (err _) now h e = cc

  resolution_known :
      (answer : Result BrokerError (ExecutionReport P T)) → resolution answer ≡ some unknown → ⊥
  resolution_known (ok r) h = target_status_known r (some_inj h)
  resolution_known (err (unknown_order x)) h = cc
  resolution_known (err (rejected x)) h = cc
  resolution_known (err _) h = cc

  unanswered :
      (m : StateMachine T) (id : Text) (answer : Result BrokerError (ExecutionReport P T)) (now : T)
      → resolution answer ≡ none
      → ((resolve m id answer now).1 ≡ m)
        × ((e : BrokerError) × ((resolve m id answer now).0 ≡ err (broker_failed (error_text e))))
  unfolding resolve
  unanswered m id (ok r) now h = cc
  unanswered m id (err (unknown_order x)) now h = cc
  unanswered m id (err (rejected x)) now h = (refl, (rejected x, refl))
  unanswered m id (err e) now h = (refl, (e, refl))

module _ {P T S : Type 0} (broker : Broker P T S) where
  pub reconcile_at :
      (m : StateMachine T) (v : S) (id broker_id : Text) (now : T)
      → status m id ≡ some unknown
      → let (answer, v') = broker.execution_report v broker_id in
        let (r, m') = resolve m id answer now in
        reconcile broker (m, v) id broker_id now ≡ (r, (m', v'))
  unfolding reconcile status_eq
  reconcile_at m v id broker_id now h = ground arith

  -- An order that is not unknown is left alone: its status is the result, the machine and the venue
  -- are untouched, and the venue is not asked.
  pub reconcile_settled :
      (m : StateMachine T) (v : S) (id broker_id : Text) (now : T) (s : OrderStatus)
      → status m id ≡ some s
      → s ≢ unknown
      → reconcile broker (m, v) id broker_id now ≡ (ok s, (m, v))
  unfolding reconcile status_eq
  reconcile_settled m v id broker_id now s h ne = ground arith

  reconcile_resolved :
      (m : StateMachine T) (v : S) (id broker_id : Text) (now : T) {s : OrderStatus}
      → status m id ≡ some unknown
      → resolution (broker.execution_report v broker_id).0 ≡ some s
      → let (r, w) = reconcile broker (m, v) id broker_id now in
        (r ≡ ok s) × (status w.0 id ≡ some s) × (w.1 ≡ (broker.execution_report v broker_id).1)
  reconcile_resolved m v id broker_id now {s} h e =
      let (done, at_s) = resolve_lem m id (broker.execution_report v broker_id).0 now h e in
      rw (reconcile_at m v id broker_id now h) (done, at_s, refl)

  -- An unknown order, reconciled where the venue answers with a report or does not know the order,
  -- takes the status that this answer calls for: filled if the report is closed with all shares,
  -- cancelled if it is closed with fewer, partially filled if it is open with some, submitted if it is
  -- open with none, and rejected if the venue does not know the order. The machine never refuses it.
  pub reconcile_unknown :
      (m : StateMachine T) (v : S) (id broker_id : Text) (now : T) {s : OrderStatus}
      → status m id ≡ some unknown
      → CallsFor (broker.execution_report v broker_id).0 s
      → let (r, w) = reconcile broker (m, v) id broker_id now in
        (r ≡ ok s) × (status w.0 id ≡ some s) × (w.1 ≡ (broker.execution_report v broker_id).1)
  reconcile_unknown m v id broker_id now h e =
      reconcile_resolved m v id broker_id now h (CallsFor-resolution e)

  -- An answer that settles nothing, such as a lost connection, leaves an unknown order and the
  -- machine as they were, and is reported as a broker error.
  pub reconcile_unanswered :
      (m : StateMachine T) (v : S) (id broker_id : Text) (now : T)
      → status m id ≡ some unknown
      → resolution (broker.execution_report v broker_id).0 ≡ none
      → ((reconcile broker (m, v) id broker_id now).1.0 ≡ m)
        × ((e : BrokerError) × ((reconcile broker (m, v) id broker_id now).0
              ≡ err (broker_failed (error_text e))))
  reconcile_unanswered m v id broker_id now h e =
      rw (reconcile_at m v id broker_id now h)
        (unanswered m id (broker.execution_report v broker_id).0 now e)

  missing_error :
      (m : StateMachine T) (v : S) (id broker_id : Text) (now : T) {s : OrderStatus}
      → status m id ≡ none
      → (reconcile broker (m, v) id broker_id now).0 ≡ ok s
      → ⊥
  unfolding reconcile
  missing_error m v id broker_id now e h = cc (e, h)

  -- A reconciliation that returns a status has left the order at it, and it is not unknown.
  pub reconcile_result :
      (m : StateMachine T) (v : S) (id broker_id : Text) (now : T) {s : OrderStatus}
      → (reconcile broker (m, v) id broker_id now).0 ≡ ok s
      → (status (reconcile broker (m, v) id broker_id now).1.0 id ≡ some s) × (s ≢ unknown)
  reconcile_result m v id broker_id now {s} h = elim (Option-cases (status m id)) [
    | inl missing ↦ absurd (missing_error m v id broker_id now missing h)
    | inr (x, at_x) ↦ elim (unknown_or x) [
      | inl open_still ↦ elim (Option-cases (resolution (broker.execution_report v broker_id).0)) [
        | inl silent ↦
            let (same, (e, failed)) =
              reconcile_unanswered m v id broker_id now (at_x ∙ ap some open_still) silent in
            cc (failed, h)
        | inr (t, calls) ↦
            let (done, at_t, asked) =
              reconcile_resolved m v id broker_id now (at_x ∙ ap some open_still) calls in
            let same : t ≡ s = ok_inj (sym done ∙ h) in
            (
              at_t ∙ ap some same,
              λ bad.
                  resolution_known (broker.execution_report v broker_id).0
                    (calls ∙ ap some (same ∙ bad)),
            )
      ]
      | inr other ↦
          let kept = reconcile_settled m v id broker_id now x at_x other in
          let same : x ≡ s = ok_inj (ap (λ p. p.0) (sym kept) ∙ h) in
          (rw kept (at_x ∙ ap some same), λ bad. other (same ∙ bad))
    ]
  ]
