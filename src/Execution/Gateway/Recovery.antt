-- ===== src/Execution/Gateway/Recovery.antt =====
-- Recovery after a restart: a map of pending orders is reconciled, one after the other.
use mathlib.Core.Path.{subst}
use loss_function.Prelude.{
  ◌≡◌, refl, sym, ap, ◌∙◌, ◌≢◌, inl, inr, none, some, [], ◌∷◌, Result, ok, err, arith, Result-cases,
  Option-cases, All,
}
use loss_function.Prelude.Keys.{beq_ne}
use loss_function.Prelude.Text.{Text, text_eq}
use loss_function.Prelude.Maps.{Map, insert}
use loss_function.Domain.{OrderStatus, unknown}
use loss_function.Broker.{ExecutionReport, BrokerError, unknown_order, rejected, Broker}
use loss_function.Execution.StateMachine.{StateMachine, unregistered, status}
use loss_function.Execution.StateMachine.Steps.{transition_others}
use loss_function.Execution.StateMachine.Audit.{register_new, status-with_order}
use loss_function.Execution.Gateway.{
  ReconcileError, machine_failed, target_status, report_text, resolve, reconcile, ensure,
  reconcile_pending,
}
use loss_function.Execution.Gateway.Reconciliation.{
  reconcile_settled, reconcile_at, reconcile_result, unknown_or, some_inj,
}

-- The order is known, at a status other than unknown.
abbrev pub IsResolved : {T : Type 0} → StateMachine T → Text → Type 0
IsResolved m id = (s : OrderStatus) × (status m id ≡ some s) × (s ≢ unknown)

abbrev pub AllResolved : {T : Type 0} → Map Text Text → StateMachine T → Type 0
AllResolved pending m = All (λ (e : Text × Text). IsResolved m e.0) pending

module _ {P T : Type 0} where
  resolve_others :
      (m : StateMachine T) (id j : Text) (answer : Result BrokerError (ExecutionReport P T))
      (now : T)
      → j ≢ id
      → status (resolve m id answer now).1 j ≡ status m j
  unfolding resolve
  resolve_others m id j (ok r) now h =
      (transition_others m id j (target_status r) (report_text r) now h).0
  resolve_others m id j (err (unknown_order x)) now h =
      (transition_others m id j OrderStatus.rejected _ now h).0
  resolve_others m id j (err (rejected x)) now h = refl
  resolve_others m id j (err _) now h = refl

module _ {T : Type 0} where
  ensure-IsResolved :
      (m : StateMachine T) (id j : Text) → IsResolved m j → IsResolved (ensure m id).1 j
  unfolding ensure
  ensure-IsResolved m id j (s, at_s, known) = elim (Option-cases (status m id)) [
    | inl missing ↦ (
      s,
      rw (missing, register_new m id unknown missing)
          (rw (status-with_order m id unknown j)
            (rw (beq_ne j id (λ e. cc (missing, at_s, ap (status m) e))) at_s)),
      known,
    )
    | inr (x, e) ↦ (s, rw e at_s, known)
  ]

module _ {P T S : Type 0} (broker : Broker P T S) where
  pub reconcile_missing :
      (m : StateMachine T) (v : S) (id broker_id : Text) (now : T)
      → status m id ≡ none
      → reconcile broker (m, v) id broker_id now ≡ (err (machine_failed (unregistered id)), (m, v))
  unfolding reconcile
  reconcile_missing m v id broker_id now h = ground arith

  reconcile-IsResolved :
      (m : StateMachine T) (v : S) (id broker_id j : Text) (now : T)
      → IsResolved m j
      → IsResolved (reconcile broker (m, v) id broker_id now).1.0 j
  reconcile-IsResolved m v id broker_id j now (s, at_s, known) = elim (Option-cases (status m id)) [
    | inl missing ↦ rw (reconcile_missing m v id broker_id now missing) (s, at_s, known)
    | inr (x, at_x) ↦ elim (unknown_or x) [
      | inl lost ↦
          let at_id = at_x ∙ ap some lost in
          rw (reconcile_at broker m v id broker_id now at_id) (
            s,
            resolve_others m id j _ now
                  (λ e. known (some_inj (sym at_s ∙ (ap (status m) e ∙ at_id))))
                ∙ at_s,
            known,
          )
      | inr other ↦ rw (reconcile_settled broker m v id broker_id now x at_x other) (s, at_s, known)
    ]
  ]

  -- The three ways in which a round of the loop ends.
  pub data Round (m : StateMachine T) (v : S) (id broker_id : Text) (rest : Map Text Text)
      (results : Map Text OrderStatus) (now : T) : Type 0 where
    goes_on :
        (s : OrderStatus)
        → (reconcile broker ((ensure m id).1, v) id broker_id now).0 ≡ ok s
        → reconcile_pending broker (m, v) ((id, broker_id) ∷ rest) results now
          ≡ reconcile_pending broker
              (reconcile broker ((ensure m id).1, v) id broker_id now).1
              rest
              (insert id s results)
              now
        → Round m v id broker_id rest results now
    stops :
        (e : ReconcileError)
        → reconcile_pending broker (m, v) ((id, broker_id) ∷ rest) results now
          ≡ (err e, (reconcile broker ((ensure m id).1, v) id broker_id now).1)
        → Round m v id broker_id rest results now
    unregistrable :
        (e : ReconcileError)
        → reconcile_pending broker (m, v) ((id, broker_id) ∷ rest) results now
          ≡ (err e, ((ensure m id).1, v))
        → Round m v id broker_id rest results now

  pub round :
      (m : StateMachine T) (v : S) (id broker_id : Text) (rest : Map Text Text)
      (results : Map Text OrderStatus) (now : T)
      → Round m v id broker_id rest results now
  unfolding reconcile_pending
  round m v id broker_id rest results now = elim (Result-cases (ensure m id).0) [
    | inl (u, e) ↦ elim (Result-cases (reconcile broker ((ensure m id).1, v) id broker_id now).0) [
      | inl (s, r) ↦ goes_on s r (ground (arith, e, r))
      | inr (x, r) ↦ stops x (ground (arith, e, r))
    ]
    | inr (x, e) ↦ unregistrable (machine_failed x) (ground (arith, e))
  ]

  pending-IsResolved :
      (pending : Map Text Text) (m : StateMachine T) (v : S) (results : Map Text OrderStatus)
      (now : T) (j : Text)
      → IsResolved m j
      → IsResolved (reconcile_pending broker (m, v) pending results now).1.0 j
  unfolding reconcile_pending
  pending-IsResolved [] m v results now j h = h
  pending-IsResolved ((id, broker_id) ∷ rest) m v results now j h =
      let kept = ensure-IsResolved m id j h in
      let moved = reconcile-IsResolved (ensure m id).1 v id broker_id j now kept in
      let (m', v') = (reconcile broker ((ensure m id).1, v) id broker_id now).1 in
      elim (round m v id broker_id rest results now) [
        | goes_on s r e ↦ rw e (pending-IsResolved rest m' v' (insert id s results) now j moved)
        | stops x e ↦ rw e moved
        | unregistrable x e ↦ rw e kept
      ]

  -- If the recovery of a map of pending orders succeeds, every order of the map is registered,
  -- with a status other than unknown.
  pub recovery_resolves :
      (pending : Map Text Text) (m : StateMachine T) (v : S) (results : Map Text OrderStatus)
      {final : Map Text OrderStatus} (now : T)
      → (reconcile_pending broker (m, v) pending results now).0 ≡ ok final
      → AllResolved pending (reconcile_pending broker (m, v) pending results now).1.0
  unfolding reconcile_pending
  recovery_resolves [] m v results now h = tt
  recovery_resolves ((id, broker_id) ∷ rest) m v results now h =
      let (m', v') = (reconcile broker ((ensure m id).1, v) id broker_id now).1 in
      elim (round m v id broker_id rest results now) [
        | goes_on s r e ↦
            let (at_s, known) = reconcile_result broker (ensure m id).1 v id broker_id now r in
            subst (λ m. AllResolved ((id, broker_id) ∷ rest) m) (sym (ap (λ p. p.1.0) e))
              (
                pending-IsResolved rest m' v' (insert id s results) now id (s, at_s, known),
                recovery_resolves rest m' v' (insert id s results) now (rw e at h),
              )
        | stops x e ↦ cc (rw e at h)
        | unregistrable x e ↦ cc (rw e at h)
      ]
