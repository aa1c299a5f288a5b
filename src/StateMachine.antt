-- ===== src/StateMachine.antt =====
-- python/src/itchlab_research/simulation/state_machine.py: the owner of the simulated orders, its
-- state and the helpers that its methods share. The methods stand in the children.
pub mod Methods
pub mod Actions
pub mod Commit
pub mod Book
pub mod Lifecycle
pub mod Calls
pub mod Totality
pub mod Effects
pub mod Tests
use itch_lab.Base.{
  ℕ, Bool, true, false, ◌&&◌, ◌||◌, not, Option, none, some, List, [], ◌∷◌, map, eqb, ltb, Eq,
  nat_eq, ◌≡◌, ◌↔◌, arith, if◌then◌else◌,
}
use itch_lab.Base.Int.{ℤ, eqb_ℤ, eqb_ℤ_iff, int_eq}
use itch_lab.Base.Dict.{Dict, lookup, contains, insert, erase}
use itch_lab.Base.Result.{Result, ok, err}
use itch_lab.Base.Action.{Action, ◌>>=◌, ◌>>◌, pure, lift, raise_if, gets, modify, or_raise}
use itch_lab.Errors.{ErrorCode, SimulationError}
use itch_lab.Order.{
  OrderState, RejectionReason, SimulatedOrder, is_terminal, terminal, fail, valid_int, max_uint64,
  max_timestamp_ns, max_latency_ns, validate_simulated_order,
}
use itch_lab.Scheduler as Sched
use itch_lab.Scheduler.{
  LatencyScheduler, ScheduledAction, ScheduledActionKind, effective_timestamp, is_current_key,
  current_completed,
}

pub data TransitionCause : Type 0 where
  submitted activated cancel_requested cancelled partial_fill : TransitionCause
  filled expired rejected invalidated : TransitionCause

pub record OrderTransition : Type 0 where
  pub simulated_order_id : ℕ
  pub before_state : Option OrderState
  pub after_state : OrderState
  pub cause : TransitionCause
  pub timestamp_ns : ℕ
  pub market_message_index : Option ℕ
  pub quantity : Option ℕ
  pub rejection_reason : Option RejectionReason

-- (symbol_id, side)
abbrev pub Slot : Type 0
Slot = ℕ × ℤ

abbrev pub eqb_slot : Slot → Slot → Bool
eqb_slot (a, b) (c, d) = eqb a c && eqb_ℤ b d

pub eqb_slot_iff : (a b : Slot) → (eqb_slot a b ≡ true) ↔ (a ≡ b)
eqb_slot_iff (a, b) (c, d) = ground (arith, eqb_ℤ_iff b d)

instance abbrev pub slot_eq : Eq Slot
slot_eq = record { beq = eqb_slot; beq_iff = eqb_slot_iff }

abbrev pub slot_of : SimulatedOrder → Slot
slot_of o = (o.symbol_id, o.side)

pub record OrderStateMachine : Type 0 where
  pub submission_latency_ns : ℕ
  pub cancellation_latency_ns : ℕ
  pub scheduler : LatencyScheduler
  pub orders : Dict ℕ SimulatedOrder
  pub occupied_slots : Dict Slot ℕ
  pub scheduled_actions : Dict ℕ ScheduledAction

-- What `__init__` stores.
abbrev pub initial : ℕ → ℕ → OrderStateMachine
initial submission_latency_ns cancellation_latency_ns = record {
  submission_latency_ns = submission_latency_ns;
  cancellation_latency_ns = cancellation_latency_ns;
  scheduler = Sched.init;
  orders = [];
  occupied_slots = [];
  scheduled_actions = [];
}

-- `__init__`
unfoldable pub make : ℕ → ℕ → Result OrderStateMachine
make submission_latency_ns cancellation_latency_ns =
    elim (effective_timestamp 0 submission_latency_ns) [
      | err e ↦ err e
      | ok _ ↦ elim (effective_timestamp 0 cancellation_latency_ns) [
        | err e ↦ err e
        | ok _ ↦
            if ltb max_latency_ns submission_latency_ns
              || ltb max_latency_ns cancellation_latency_ns
            then err (fail ErrorCode.latency none none)
            else ok (initial submission_latency_ns cancellation_latency_ns)
      ]
    ]

-- A call of the scheduler.
abbrev pub on_scheduler : {A : Type 0} → Action LatencyScheduler A → Action OrderStateMachine A
on_scheduler m s = let (r, s') = m s.scheduler in (r, record s { scheduler = s' })

-- `order(id)`
unfoldable pub order : ℕ → Action OrderStateMachine SimulatedOrder
order id = do
  raise_if (not (valid_int id 0 max_uint64)) (fail ErrorCode.simulation_anomaly none none)
  or_raise (← gets (λ s. lookup id s.orders)) (fail ErrorCode.simulation_anomaly (some id) none)

-- `sorted(self._orders)`, with the orders.
unfoldable pub insert_by_id :
    ℕ × SimulatedOrder → List (ℕ × SimulatedOrder) → List (ℕ × SimulatedOrder)
insert_by_id (k, o) [] = (k, o) ∷ []
insert_by_id (k, o) ((j, p) ∷ l) =
    if ltb k j then (k, o) ∷ (j, p) ∷ l else (j, p) ∷ insert_by_id (k, o) l

unfoldable pub sort_by_id : List (ℕ × SimulatedOrder) → List (ℕ × SimulatedOrder)
unfolding insert_by_id
sort_by_id [] = []
sort_by_id (e ∷ l) = insert_by_id e (sort_by_id l)

-- `orders`
unfoldable pub orders_of : OrderStateMachine → List SimulatedOrder
unfolding sort_by_id
orders_of s = map (λ e. e.1) (sort_by_id s.orders)

-- `_require_current_market_key`
unfoldable pub require_current_market_key : ℕ → ℕ → ℕ → Action OrderStateMachine (Unit {0})
require_current_market_key timestamp_ns message_index id = do
  s ← gets (λ s. s.scheduler)
  raise_if (not (is_current_key timestamp_ns message_index s) || current_completed s)
      (fail ErrorCode.simulation_anomaly (some id) (some message_index))

-- `occupied_order`
unfoldable pub occupied_order : Slot → Action OrderStateMachine (Option SimulatedOrder)
unfolding order
occupied_order slot s = elim (lookup slot s.occupied_slots) [
  | none ↦ (ok none, s)
  | some id ↦
      (do
        o ← order id
        raise_if (terminal o) (fail ErrorCode.invariant (some id) none)
        pure (some o))
        s
]

-- `_invalid_transition`
abbrev pub invalid_transition : SimulatedOrder → SimulationError
invalid_transition o = fail ErrorCode.simulation_anomaly (some o.simulated_order_id) none

-- `_validate_timestamp`
abbrev pub validate_timestamp : ℕ → ℕ → Action OrderStateMachine (Unit {0})
validate_timestamp timestamp_ns id =
    raise_if (not (valid_int timestamp_ns 0 max_timestamp_ns))
      (fail ErrorCode.timestamp (some id) none)

-- `self._occupied_slots.get(slot) == id`
abbrev pub owns_slot : Slot → ℕ → OrderStateMachine → Bool
owns_slot slot id s = elim (lookup slot s.occupied_slots) [ none ↦ false | some j ↦ eqb j id ]

-- The order is written, and a finished order gives up its slot.
abbrev pub stored : SimulatedOrder → OrderStateMachine → OrderStateMachine
stored o s = record s {
  orders = insert o.simulated_order_id o s.orders;
  occupied_slots = if terminal o then erase (slot_of o) s.occupied_slots else s.occupied_slots;
}

-- The transition that `_commit` returns.
abbrev pub transition :
    SimulatedOrder
    → SimulatedOrder
    → TransitionCause
    → ℕ
    → Option ℕ
    → Option ℕ
    → Option RejectionReason
    → OrderTransition
transition b a cause timestamp_ns market_message_index quantity reason = record {
  simulated_order_id = a.simulated_order_id;
  before_state = some b.state;
  after_state = a.state;
  cause = cause;
  timestamp_ns = timestamp_ns;
  market_message_index = market_message_index;
  quantity = quantity;
  rejection_reason = reason;
}

-- `_commit`
unfoldable pub commit :
    SimulatedOrder
    → SimulatedOrder
    → TransitionCause
    → ℕ
    → Option ℕ
    → Option ℕ
    → Option RejectionReason
    → Action OrderStateMachine OrderTransition
commit b a cause timestamp_ns market_message_index quantity reason = do
  lift (validate_simulated_order a)
  s ← gets (λ s. s)
  raise_if (terminal a && not (owns_slot (slot_of a) a.simulated_order_id s))
      (fail ErrorCode.invariant (some a.simulated_order_id) none)
  modify (stored a)
  pure (transition b a cause timestamp_ns market_message_index quantity reason)
