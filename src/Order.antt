-- ===== src/Order.antt =====
-- python/src/itchlab_research/simulation/order.py: simulated orders and their validation.
-- Identifiers, indices, timestamps, prices and quantities are naturals, so the lower bound 0 of
-- `_valid_int` always passes; the side is a signed integer. The tests on the Python type of a
-- value (`isinstance`, `bool`) hold of every value here.
pub mod Validity
mod Tests
use itch_lab.Base.{
  ℕ, ◌+◌, ◌-◌, ◌*◌, ◌^◌, Bool, true, false, ◌&&◌, ◌||◌, not, Option, none, some, ltb, leb, eqb,
  is_some, if◌then◌else◌,
}
use itch_lab.Base.Int.{ℤ, pos, negsuc, eqb_ℤ}
use itch_lab.Base.Result.{Result, ok, err, ◌>>=◌, ◌>>◌, raise_if}
use itch_lab.Errors.{ErrorCode, SimulationError}

abbrev pub max_uint16 : ℕ
max_uint16 = 65535

abbrev pub max_uint32 : ℕ
max_uint32 = 4294967295

abbrev pub max_uint64 : ℕ
max_uint64 = 18446744073709551615

abbrev pub max_timestamp_ns : ℕ
max_timestamp_ns = 86399999999999

abbrev pub max_latency_ns : ℕ
max_latency_ns = 10000000000

pub data OrderState : Type 0 where
  pending_submit active partially_filled pending_cancel : OrderState
  filled cancelled expired rejected invalidated : OrderState

pub data RejectionReason : Type 0 where
  marketable_at_activation counterfactual_cross : RejectionReason

-- `state in TERMINAL_STATES`
abbrev pub is_terminal : OrderState → Bool
is_terminal OrderState.filled = true
is_terminal OrderState.cancelled = true
is_terminal OrderState.expired = true
is_terminal OrderState.rejected = true
is_terminal OrderState.invalidated = true
is_terminal _ = false

pub record OrderRequest : Type 0 where
  pub simulated_order_id : ℕ
  pub decision_message_index : ℕ
  pub prediction_message_index : Option ℕ
  pub requested_timestamp_ns : ℕ
  pub symbol_id : ℕ
  pub side : ℤ
  pub price4 : ℕ
  pub quantity : ℕ

pub record SimulatedOrder : Type 0 where
  pub simulated_order_id : ℕ
  pub decision_message_index : ℕ
  pub prediction_message_index : Option ℕ
  pub requested_timestamp_ns : ℕ
  pub effective_timestamp_ns : ℕ
  pub symbol_id : ℕ
  pub side : ℤ
  pub price4 : ℕ
  pub original_quantity : ℕ
  pub remaining_quantity : ℕ
  pub queue_ahead_initial : Option ℕ
  pub state : OrderState
  pub cancel_requested_ns : Option ℕ
  pub terminal_timestamp_ns : Option ℕ
  pub rejection_reason : Option RejectionReason

abbrev pub terminal : SimulatedOrder → Bool
terminal o = is_terminal o.state

abbrev pub fail : ErrorCode → Option ℕ → Option ℕ → SimulationError
fail code id index = record { code = code; simulated_order_id = id; message_index = index }

abbrev pub valid_int : ℕ → ℕ → ℕ → Bool
valid_int value minimum maximum = leb minimum value && leb value maximum

-- A field that is absent, or passes the test.
abbrev pub absent_or : (ℕ → Bool) → Option ℕ → Bool
absent_or test none = true
absent_or test (some v) = test v

-- `side in (-1, 1)`
abbrev pub valid_side : ℤ → Bool
valid_side s = eqb_ℤ s (pos 1) || eqb_ℤ s (negsuc 0)

unfoldable pub validate_order_request : OrderRequest → Result (Unit {0})
validate_order_request r = do
  raise_if (not (valid_int r.simulated_order_id 0 max_uint64))
      (fail ErrorCode.simulation_anomaly none none)
  raise_if (not (valid_int r.decision_message_index 0 max_uint64))
      (fail ErrorCode.simulation_anomaly (some r.simulated_order_id) none)
  raise_if
      (not (
        absent_or (λ p. valid_int p 0 max_uint64 && leb p r.decision_message_index)
          r.prediction_message_index))
      (fail ErrorCode.prediction_key (some r.simulated_order_id) none)
  raise_if (not (valid_int r.requested_timestamp_ns 0 max_timestamp_ns))
      (fail ErrorCode.timestamp (some r.simulated_order_id) (some r.decision_message_index))
  raise_if (not (valid_int r.symbol_id 1 max_uint16))
      (fail ErrorCode.unknown_symbol (some r.simulated_order_id) none)
  raise_if (not (valid_side r.side))
      (fail ErrorCode.simulation_anomaly (some r.simulated_order_id) none)
  raise_if (not (valid_int r.price4 0 max_uint32))
      (fail ErrorCode.price (some r.simulated_order_id) none)
  raise_if (not (valid_int r.quantity 1 max_uint64))
      (fail ErrorCode.quantity (some r.simulated_order_id) none)

-- The request that an order was made from.
abbrev pub request_of : SimulatedOrder → OrderRequest
request_of o = record {
  simulated_order_id = o.simulated_order_id;
  decision_message_index = o.decision_message_index;
  prediction_message_index = o.prediction_message_index;
  requested_timestamp_ns = o.requested_timestamp_ns;
  symbol_id = o.symbol_id;
  side = o.side;
  price4 = o.price4;
  quantity = o.original_quantity;
}

-- The ranges of the fields that a request does not have.
unfoldable pub validate_ranges : SimulatedOrder → Result (Unit {0})
validate_ranges o = do
  raise_if
      (not (valid_int o.effective_timestamp_ns o.requested_timestamp_ns max_timestamp_ns)
        || not (valid_int o.remaining_quantity 0 o.original_quantity))
      (fail ErrorCode.simulation_anomaly (some o.simulated_order_id) none)
  raise_if (not (absent_or (λ q. valid_int q 0 max_uint64) o.queue_ahead_initial))
      (fail ErrorCode.queue_state (some o.simulated_order_id) none)
  raise_if
      (not (
        absent_or (λ t. valid_int t o.requested_timestamp_ns max_timestamp_ns)
          o.cancel_requested_ns))
      (fail ErrorCode.timestamp (some o.simulated_order_id) none)
  raise_if
      (not (
        absent_or (λ t. valid_int t o.requested_timestamp_ns max_timestamp_ns)
          o.terminal_timestamp_ns))
      (fail ErrorCode.timestamp (some o.simulated_order_id) none)

abbrev pub is_filled : OrderState → Bool
is_filled OrderState.filled = true
is_filled _ = false

abbrev pub is_partially_filled : OrderState → Bool
is_partially_filled OrderState.partially_filled = true
is_partially_filled _ = false

abbrev pub is_pending_cancel : OrderState → Bool
is_pending_cancel OrderState.pending_cancel = true
is_pending_cancel _ = false

abbrev pub is_pending_submit : OrderState → Bool
is_pending_submit OrderState.pending_submit = true
is_pending_submit _ = false

abbrev pub is_active : OrderState → Bool
is_active OrderState.active = true
is_active _ = false

abbrev pub expected_reason : OrderState → Option RejectionReason
expected_reason OrderState.rejected = some RejectionReason.marketable_at_activation
expected_reason OrderState.invalidated = some RejectionReason.counterfactual_cross
expected_reason _ = none

abbrev pub same_reason : Option RejectionReason → Option RejectionReason → Bool
same_reason none none = true
same_reason (some RejectionReason.marketable_at_activation)
      (some RejectionReason.marketable_at_activation) =
    true
same_reason (some RejectionReason.counterfactual_cross)
      (some RejectionReason.counterfactual_cross) =
    true
same_reason _ _ = false

-- What the state requires of the other fields.
unfoldable pub validate_state : SimulatedOrder → Result (Unit {0})
validate_state o = do
  raise_if (terminal o && not (is_some o.terminal_timestamp_ns))
      (fail ErrorCode.simulation_anomaly (some o.simulated_order_id) none)
  raise_if (not (terminal o) && is_some o.terminal_timestamp_ns)
      (fail ErrorCode.simulation_anomaly (some o.simulated_order_id) none)
  raise_if (is_filled o.state && not (eqb o.remaining_quantity 0))
      (fail ErrorCode.quantity (some o.simulated_order_id) none)
  raise_if (not (is_filled o.state) && eqb o.remaining_quantity 0)
      (fail ErrorCode.quantity (some o.simulated_order_id) none)
  raise_if
      (is_partially_filled o.state
        && not (ltb 0 o.remaining_quantity && ltb o.remaining_quantity o.original_quantity))
      (fail ErrorCode.quantity (some o.simulated_order_id) none)
  raise_if (is_pending_cancel o.state && not (is_some o.cancel_requested_ns))
      (fail ErrorCode.simulation_anomaly (some o.simulated_order_id) none)
  raise_if ((is_active o.state || is_partially_filled o.state) && is_some o.cancel_requested_ns)
      (fail ErrorCode.simulation_anomaly (some o.simulated_order_id) none)
  raise_if (not (same_reason o.rejection_reason (expected_reason o.state)))
      (fail ErrorCode.simulation_anomaly (some o.simulated_order_id) none)

unfoldable pub validate_simulated_order : SimulatedOrder → Result (Unit {0})
validate_simulated_order o = do
  validate_order_request (request_of o)
  validate_ranges o
  validate_state o
