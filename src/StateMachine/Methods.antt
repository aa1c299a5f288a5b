-- ===== src/StateMachine/Methods.antt =====
-- state_machine.py: the methods that a strategy or the queue model calls.
use itch_lab.Base.{
  ℕ, ◌-◌, Bool, ◌||◌, not, nat_eq, Option, none, some, ltb, eqb, is_some, if◌then◌else◌,
}
use itch_lab.Base.Dict.{contains, insert}
use itch_lab.Base.Action.{Action, ◌>>=◌, ◌>>◌, pure, lift, raise_if, gets, modify}
use itch_lab.Errors.{ErrorCode}
use itch_lab.Order.{
  OrderState, RejectionReason, OrderRequest, SimulatedOrder, terminal, is_pending_submit,
  is_pending_cancel, is_active, is_partially_filled, fail, valid_int, validate_order_request,
  validate_simulated_order,
}
use itch_lab.Scheduler.{ScheduledActionKind, effective_timestamp, schedule}
use itch_lab.StateMachine.{
  TransitionCause, OrderTransition, OrderStateMachine, on_scheduler, order,
  require_current_market_key, invalid_transition, validate_timestamp, commit, slot_eq,
}

-- The order that `submit` makes.
abbrev pub pending_order : OrderRequest → ℕ → SimulatedOrder
pending_order r effective = record {
  simulated_order_id = r.simulated_order_id;
  decision_message_index = r.decision_message_index;
  prediction_message_index = r.prediction_message_index;
  requested_timestamp_ns = r.requested_timestamp_ns;
  effective_timestamp_ns = effective;
  symbol_id = r.symbol_id;
  side = r.side;
  price4 = r.price4;
  original_quantity = r.quantity;
  remaining_quantity = r.quantity;
  queue_ahead_initial = none;
  state = OrderState.pending_submit;
  cancel_requested_ns = none;
  terminal_timestamp_ns = none;
  rejection_reason = none;
}

unfoldable pub submit : OrderRequest → Action OrderStateMachine OrderTransition
submit r = do
  lift (validate_order_request r)
  require_current_market_key r.requested_timestamp_ns r.decision_message_index r.simulated_order_id
  s ← gets (λ s. s)
  raise_if (contains r.simulated_order_id s.orders)
      (fail ErrorCode.simulation_anomaly (some r.simulated_order_id) none)
  raise_if (contains (r.symbol_id, r.side) s.occupied_slots) (
      fail ErrorCode.simulation_anomaly (some r.simulated_order_id) (some r.decision_message_index))
  effective ← lift (effective_timestamp r.requested_timestamp_ns s.submission_latency_ns)
  lift (validate_simulated_order (pending_order r effective))
  action ← on_scheduler (
      schedule ScheduledActionKind.activate r.simulated_order_id r.requested_timestamp_ns
        r.decision_message_index s.submission_latency_ns)
  modify (λ s. record s {
    orders = insert r.simulated_order_id (pending_order r effective) s.orders;
    occupied_slots = insert (r.symbol_id, r.side) r.simulated_order_id s.occupied_slots;
    scheduled_actions = insert action.sequence action s.scheduled_actions;
  })
  pure (record {
    simulated_order_id = r.simulated_order_id;
    before_state = none;
    after_state = OrderState.pending_submit;
    cause = TransitionCause.submitted;
    timestamp_ns = r.requested_timestamp_ns;
    market_message_index = some r.decision_message_index;
    quantity = none;
    rejection_reason = none;
  })

-- The order once its cancellation is requested.
abbrev pub cancel_pending : ℕ → SimulatedOrder → SimulatedOrder
cancel_pending timestamp_ns o = record o {
  state =
      if is_pending_submit o.state then OrderState.pending_submit else OrderState.pending_cancel;
  cancel_requested_ns = some timestamp_ns;
}

unfoldable pub request_cancel : ℕ → ℕ → ℕ → Action OrderStateMachine OrderTransition
request_cancel id timestamp_ns message_index = do
  o ← order id
  require_current_market_key timestamp_ns message_index id
  raise_if (not (is_pending_submit o.state || is_active o.state || is_partially_filled o.state))
      (invalid_transition o)
  raise_if (is_some o.cancel_requested_ns) (invalid_transition o)
  raise_if (ltb timestamp_ns o.requested_timestamp_ns || ltb message_index o.decision_message_index)
      (fail ErrorCode.timestamp (some id) (some message_index))
  s ← gets (λ s. s)
  _ ← lift (effective_timestamp timestamp_ns s.cancellation_latency_ns)
  lift (validate_simulated_order (cancel_pending timestamp_ns o))
  action ←
      on_scheduler (
        schedule ScheduledActionKind.cancel id timestamp_ns message_index s.cancellation_latency_ns)
  modify (λ s. record s {
    orders = insert id (cancel_pending timestamp_ns o) s.orders;
    scheduled_actions = insert action.sequence action s.scheduled_actions;
  })
  pure (record {
    simulated_order_id = id;
    before_state = some o.state;
    after_state = (cancel_pending timestamp_ns o).state;
    cause = TransitionCause.cancel_requested;
    timestamp_ns = timestamp_ns;
    market_message_index = some message_index;
    quantity = none;
    rejection_reason = none;
  })

-- The order after a fill of the quantity.
abbrev pub filled_by : ℕ → ℕ → SimulatedOrder → SimulatedOrder
filled_by quantity timestamp_ns o = record o {
  remaining_quantity = o.remaining_quantity - quantity;
  state =
      if eqb (o.remaining_quantity - quantity) 0
      then OrderState.filled
      else if is_pending_cancel o.state
      then OrderState.pending_cancel
      else OrderState.partially_filled;
  terminal_timestamp_ns =
      if eqb (o.remaining_quantity - quantity) 0 then some timestamp_ns else none;
}

abbrev pub fill_cause : ℕ → SimulatedOrder → TransitionCause
fill_cause quantity o =
    if eqb (o.remaining_quantity - quantity) 0
    then TransitionCause.filled
    else TransitionCause.partial_fill

-- `state in {ACTIVE, PARTIALLY_FILLED, PENDING_CANCEL}`
abbrev pub is_exposed : OrderState → Bool
is_exposed s = is_active s || is_partially_filled s || is_pending_cancel s

unfoldable pub record_fill : ℕ → ℕ → ℕ → ℕ → Action OrderStateMachine OrderTransition
record_fill id quantity timestamp_ns market_message_index = do
  o ← order id
  require_current_market_key timestamp_ns market_message_index id
  raise_if (is_pending_submit o.state)
      (fail ErrorCode.latency (some id) (some market_message_index))
  raise_if (not (is_exposed o.state)) (invalid_transition o)
  raise_if (not (valid_int quantity 1 o.remaining_quantity))
      (fail ErrorCode.quantity (some id) (some market_message_index))
  raise_if (ltb timestamp_ns o.effective_timestamp_ns)
      (fail ErrorCode.latency (some id) (some market_message_index))
  commit o (filled_by quantity timestamp_ns o) (fill_cause quantity o) timestamp_ns
      (some market_message_index) (some quantity) none

-- The order in a terminal state.
abbrev pub stopped : OrderState → Option RejectionReason → ℕ → SimulatedOrder → SimulatedOrder
stopped state reason timestamp_ns o = record o {
  state = state;
  terminal_timestamp_ns = some timestamp_ns;
  rejection_reason = reason;
}

abbrev pub rejected : ℕ → SimulatedOrder → SimulatedOrder
rejected = stopped OrderState.rejected (some RejectionReason.marketable_at_activation)

unfoldable pub reject : ℕ → ℕ → Action OrderStateMachine OrderTransition
reject id timestamp_ns = do
  o ← order id
  raise_if (not (is_pending_submit o.state)) (invalid_transition o)
  validate_timestamp timestamp_ns id
  raise_if (ltb timestamp_ns o.effective_timestamp_ns) (fail ErrorCode.latency (some id) none)
  commit o (rejected timestamp_ns o) TransitionCause.rejected timestamp_ns none none
      (some RejectionReason.marketable_at_activation)

abbrev pub invalidated : ℕ → SimulatedOrder → SimulatedOrder
invalidated = stopped OrderState.invalidated (some RejectionReason.counterfactual_cross)

unfoldable pub invalidate : ℕ → ℕ → ℕ → Action OrderStateMachine OrderTransition
invalidate id timestamp_ns market_message_index = do
  o ← order id
  require_current_market_key timestamp_ns market_message_index id
  raise_if (not (is_exposed o.state)) (invalid_transition o)
  commit o (invalidated timestamp_ns o) TransitionCause.invalidated timestamp_ns
      (some market_message_index) none (some RejectionReason.counterfactual_cross)

-- `replace(order, state=..., terminal_timestamp_ns=...)`, which keeps the reason.
abbrev pub ended : OrderState → ℕ → SimulatedOrder → SimulatedOrder
ended state timestamp_ns o = record o { state = state; terminal_timestamp_ns = some timestamp_ns }

unfoldable pub expire : ℕ → ℕ → Action OrderStateMachine OrderTransition
expire id timestamp_ns = do
  o ← order id
  raise_if (terminal o) (invalid_transition o)
  validate_timestamp timestamp_ns id
  raise_if (ltb timestamp_ns o.requested_timestamp_ns) (fail ErrorCode.timestamp (some id) none)
  commit o (ended OrderState.expired timestamp_ns o) TransitionCause.expired timestamp_ns none none
      none
