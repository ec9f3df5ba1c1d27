-- ===== src/Runtime/Kept.antt =====
-- What the calls that only ask the venue leave: every order that has a status still has one, and
-- nothing more has reached the venue.
use loss_function.Prelude.{
  true, ◌≡◌, refl, ◌∙◌, ap, inl, inr, some, List, [], ◌∷◌, Result, ok, err, arith, Option-cases,
  Bool-cases, is_some,
}
use loss_function.Prelude.Text.{Text, text_eq}
use loss_function.Prelude.Maps.{Map, insert}
use loss_function.Domain.{OrderStatus, unknown}
use loss_function.Broker.{BrokerError, rejected, unknown_order, ExecutionReport, Broker}
use loss_function.Execution.StateMachine.{StateMachine, status, status_eq}
use loss_function.Execution.StateMachine.Steps.{status-record_event}
use loss_function.Execution.StateMachine.Audit.{register_new, status-with_order}
use loss_function.Execution.StateMachine.Runs.{
  Effect, nothing, registered, recorded, transition-Effect, register-Effect,
}
use loss_function.Execution.Gateway.{resolve, reconcile, reconcile_pending, ensure, target_status}
use loss_function.Execution.Gateway.Reconciliation.{reconcile_at, reconcile_settled, unknown_or}
use loss_function.Execution.Gateway.Recovery.{
  reconcile_missing, round, goes_on, stops, unregistrable,
}
use loss_function.Execution.Gateway.Once.{logged, has, Distinct}
use loss_function.Runtime.Syncing.{follow}

module _ {T : Type 0} where
  -- Every order that has a status still has one.
  abbrev pub Grows : StateMachine T → StateMachine T → Type 0
  Grows m m' = (id : Text) → is_some (status m id) ≡ true → is_some (status m' id) ≡ true

  -- No order reached the venue twice, and each that did has a status.
  abbrev pub IsOnceIn : StateMachine T → List Text → Type 0
  IsOnceIn m log = Distinct log × ((id : Text) → has id log ≡ true → is_some (status m id) ≡ true)

  pub once_kept :
      (m m' : StateMachine T) (log log' : List Text)
      → Grows m m'
      → log' ≡ log
      → IsOnceIn m log
      → IsOnceIn m' log'
  once_kept m m' log log' g l (distinct, known) = rw l (distinct, λ id h. g id (known id h))

  Effect-Grows : {m m' : StateMachine T} → Effect m m' → Grows m m'
  Effect-Grows nothing id h = h
  Effect-Grows {m} (registered j s fresh e) id h =
      rw e (rw (register_new m j s fresh) (rw (status-with_order m j s id) (ground (arith, h))))
  Effect-Grows {m} (recorded e known legal p) id h =
      rw p (rw (status-record_event m e id) (ground (arith, h)))

  ensure-Grows : (m : StateMachine T) (id : Text) → Grows m (ensure m id).1
  unfolding ensure
  ensure-Grows m id = elim (Bool-cases (is_some (status m id))) [
    | inl k ↦ rw k λ j h. h
    | inr k ↦ rw k (Effect-Grows (register-Effect m id unknown))
  ]

module _ {P T : Type 0} where
  resolve-Grows :
      (m : StateMachine T) (id : Text) (answer : Result BrokerError (ExecutionReport P T)) (now : T)
      → Grows m (resolve m id answer now).1
  unfolding resolve
  resolve-Grows m id (ok r) now = Effect-Grows (transition-Effect m id (target_status r) _ now)
  resolve-Grows m id (err (unknown_order x)) now =
      Effect-Grows (transition-Effect m id OrderStatus.rejected _ now)
  resolve-Grows m id (err (rejected x)) now = λ j h. h
  resolve-Grows m id (err _) now = λ j h. h

  pub follow-Grows :
      (m : StateMachine T) (id : Text) (s : OrderStatus)
      (answer : Result BrokerError (ExecutionReport P T)) (now : T)
      → Grows m (follow m id s answer now).1
  unfolding follow
  follow-Grows m id s (err x) now = λ j h. h
  follow-Grows m id s (ok r) now = elim (Bool-cases (status_eq (target_status r) s)) [
    | inl k ↦ rw k λ j h. h
    | inr k ↦ rw k (Effect-Grows (transition-Effect m id (target_status r) _ now))
  ]

module _ {P T S : Type 0} (broker : Broker P T S) where
  -- a reconciliation, too
  pub reconcile-Grows :
      (m : StateMachine T) (v : S × List Text) (id b : Text) (now : T)
      → let (m', v') = (reconcile (logged broker) (m, v) id b now).1 in Grows m m' × (v'.1 ≡ v.1)
  reconcile-Grows m v id b now = elim (Option-cases (status m id)) [
    | inl missing ↦ rw (reconcile_missing (logged broker) m v id b now missing) (λ j h. h, refl)
    | inr (s, at_s) ↦ elim (unknown_or s) [
      | inl k ↦
          rw (reconcile_at (logged broker) m v id b now (at_s ∙ ap some k))
            (resolve-Grows m id (broker.execution_report v.0 b).0 now, refl)
      | inr k ↦ rw (reconcile_settled (logged broker) m v id b now s at_s k) (λ j h. h, refl)
    ]
  ]

  pub pending-Grows :
      (m : StateMachine T) (v : S × List Text) (pending : Map Text Text)
      (results : Map Text OrderStatus) (now : T)
      → let (m', v') = (reconcile_pending (logged broker) (m, v) pending results now).1 in
        Grows m m' × (v'.1 ≡ v.1)
  unfolding reconcile_pending
  pending-Grows m v [] results now = (λ j h. h, refl)
  pending-Grows m v ((id, b) ∷ rest) results now =
      let (m1, v1) = (reconcile (logged broker) ((ensure m id).1, v) id b now).1 in
      let (g, l) = reconcile-Grows (ensure m id).1 v id b now in
      let first = ensure-Grows m id in
      elim (round (logged broker) m v id b rest results now) [
        | goes_on s r e ↦
            let (g', l') = pending-Grows m1 v1 rest (insert id s results) now in
            rw e (λ j h. g' j (g j (first j h)), l' ∙ l)
        | stops x e ↦ rw e (λ j h. g j (first j h), l)
        | unregistrable x e ↦ rw e (first, refl)
      ]
