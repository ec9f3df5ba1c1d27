-- ===== src/Execution/StateMachine.antt =====
-- rust/lossfunction/src/execution/state_machine.rs: the owner of order statuses. A method that
-- takes `&mut self` returns its result and the machine; the clock's reading and the callback's
-- calls are explicit: `now` is an argument, `emitted` the events that `on_event` was called with.
pub mod Table
pub mod Steps
pub mod Runs
pub mod Audit
use loss_function.Prelude.{
  Bool, true, false, ◌&&◌, ◌||◌, Option, none, some, List, [], ◌∷◌, ◌++◌, Result, ok, err, is_some,
  unwrap_or, if◌then◌else◌,
}
use loss_function.Prelude.Text.{Text, text_eq}
use loss_function.Prelude.Maps.{Map, lookup, insert, contains}
use loss_function.Domain.{
  OrderStatus, pending, submitted, partially_filled, filled, cancelled, rejected, unknown,
}

-- from-status -> statuses it may move to
unfoldable pub transitions : OrderStatus → List OrderStatus
transitions pending = submitted ∷ rejected ∷ cancelled ∷ unknown ∷ []
transitions submitted = partially_filled ∷ filled ∷ cancelled ∷ rejected ∷ unknown ∷ []
transitions partially_filled = partially_filled ∷ filled ∷ cancelled ∷ unknown ∷ []
transitions unknown = submitted ∷ partially_filled ∷ filled ∷ cancelled ∷ rejected ∷ []
transitions filled = []
transitions cancelled = []
transitions rejected = []

-- `==` on statuses, which the source derives
unfoldable pub status_eq : OrderStatus → OrderStatus → Bool
status_eq pending pending = true
status_eq submitted submitted = true
status_eq partially_filled partially_filled = true
status_eq filled filled = true
status_eq cancelled cancelled = true
status_eq rejected rejected = true
status_eq unknown unknown = true
status_eq _ _ = false

-- `contains` of a slice
unfoldable pub has_status : List OrderStatus → OrderStatus → Bool
unfolding status_eq
has_status [] s = false
has_status (x ∷ xs) s = status_eq x s || has_status xs s

-- `StateMachine::can_transition`
unfoldable pub can_transition : OrderStatus → OrderStatus → Bool
unfolding transitions has_status
can_transition from to = has_status (transitions from) to

-- `unknown_entry_allowed_from`
unfoldable pub unknown_entry_allowed_from : OrderStatus → Bool
unknown_entry_allowed_from pending = true
unknown_entry_allowed_from submitted = true
unknown_entry_allowed_from _ = false

pub record TransitionEvent (T : Type 0) : Type 0 where
  pub client_order_id : Text
  pub from_status : OrderStatus
  pub to_status : OrderStatus
  pub reason : Text
  pub occurred_at : T

pub data TransitionError : Type 0 where
  illegal : Text → OrderStatus → OrderStatus → TransitionError
  unknown_entry_blocked : Text → OrderStatus → TransitionError
  unregistered : Text → TransitionError
  already_registered : Text → TransitionError

pub record StateMachine (T : Type 0) : Type 0 where
  pub statuses : Map Text OrderStatus
  pub history : Map Text (List (TransitionEvent T))
  -- whether a callback is set
  pub on_event : Bool
  -- the calls of the callback, oldest first
  pub emitted : List (TransitionEvent T)

module _ {T : Type 0} where
  -- `StateMachine::new`
  abbrev pub new : StateMachine T
  new = record { statuses = []; history = []; on_event = false; emitted = [] }

  -- `StateMachine::with_on_event`
  abbrev pub with_on_event : StateMachine T
  with_on_event = record new { on_event = true }

  -- `StateMachine::status`
  unfoldable pub status : StateMachine T → Text → Option OrderStatus
  status m id = lookup id m.statuses

  -- `StateMachine::history`, also `entry(..).or_default()`
  unfoldable pub events : StateMachine T → Text → List (TransitionEvent T)
  events m id = unwrap_or (lookup id m.history) []

  -- `StateMachine::register`
  unfoldable pub register :
      StateMachine T → Text → OrderStatus → Result TransitionError (Unit {0}) × StateMachine T
  register m id s = if is_some (status m id) then (err (already_registered id), m) else (
    ok tt,
    record m { statuses = insert id s m.statuses; history = insert id (events m id) m.history },
  )

  -- the writes of a legal transition: the status, the history and the callback
  unfoldable pub record_event : StateMachine T → TransitionEvent T → StateMachine T
  record_event m event =
      let id = event.client_order_id in
      record m {
        statuses = insert id event.to_status m.statuses;
        history = insert id (events m id ++ event ∷ []) m.history;
        emitted = if m.on_event then m.emitted ++ event ∷ [] else m.emitted;
      }

  -- `StateMachine::transition`
  unfoldable pub transition :
      StateMachine T
      → Text
      → OrderStatus
      → Text
      → T
      → Result TransitionError OrderStatus × StateMachine T
  transition m id to reason now = elim (status m id) [
    | none ↦ (err (unregistered id), m)
    | some current ↦
        if can_transition current to
        then (
          ok to,
          record_event m (record {
            client_order_id = id;
            from_status = current;
            to_status = to;
            reason = reason;
            occurred_at = now;
          }),
        )
        else (err (illegal id current to), m)
  ]

  -- `StateMachine::mark_unknown`
  unfoldable pub mark_unknown :
      StateMachine T → Text → Text → T → Result TransitionError OrderStatus × StateMachine T
  mark_unknown m id reason now = elim (status m id) [
    | none ↦ (err (unregistered id), m)
    | some current ↦
        if unknown_entry_allowed_from current
        then transition m id unknown reason now
        else (err (unknown_entry_blocked id current), m)
  ]
