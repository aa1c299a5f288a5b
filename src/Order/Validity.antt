-- ===== src/Order/Validity.antt =====
-- order.py: the orders that `validate_simulated_order` accepts, described state by state.
use itch_lab.Base.{ℕ, ◌≤◌, ◌<◌, ◌≡◌, ◌↔◌, ◌⊎◌, true, Option, none, some, arith, is_some}
use itch_lab.Base.Int.{pos, negsuc}
use itch_lab.Base.Result.{ok}
use itch_lab.Order.{
  OrderState, RejectionReason, OrderRequest, SimulatedOrder, max_uint16, max_uint32, max_uint64,
  max_timestamp_ns, request_of, validate_order_request, validate_ranges, validate_state,
  validate_simulated_order,
}

-- An optional number lies in the range, if it is there.
abbrev pub Within : ℕ → ℕ → Option ℕ → Type 0
Within lo hi none = Unit {0}
Within lo hi (some v) = (lo ≤ v) × (v ≤ hi)

pub record IsValidRequest (r : OrderRequest) : Type 0 where
  pub id_bound : r.simulated_order_id ≤ max_uint64
  pub index_bound : r.decision_message_index ≤ max_uint64
  pub prediction_past : Within 0 r.decision_message_index r.prediction_message_index
  pub requested_bound : r.requested_timestamp_ns ≤ max_timestamp_ns
  pub symbol_range : (1 ≤ r.symbol_id) × (r.symbol_id ≤ max_uint16)
  pub side_unit : (r.side ≡ pos 1) ⊎ (r.side ≡ negsuc 0)
  pub price_bound : r.price4 ≤ max_uint32
  pub quantity_range : (1 ≤ r.quantity) × (r.quantity ≤ max_uint64)

pub record InRange (o : SimulatedOrder) : Type 0 where
  pub effective_range :
      (o.requested_timestamp_ns ≤ o.effective_timestamp_ns)
      × (o.effective_timestamp_ns ≤ max_timestamp_ns)
  pub remaining_bound : o.remaining_quantity ≤ o.original_quantity
  pub queue_range : Within 0 max_uint64 o.queue_ahead_initial
  pub cancel_range : Within o.requested_timestamp_ns max_timestamp_ns o.cancel_requested_ns
  pub terminal_range : Within o.requested_timestamp_ns max_timestamp_ns o.terminal_timestamp_ns

-- A live order: no terminal timestamp, no reason, and something left to fill.
abbrev pub Live : SimulatedOrder → Type 0
Live o = (o.terminal_timestamp_ns ≡ none) × (o.rejection_reason ≡ none) × (0 < o.remaining_quantity)

-- A finished order that was not filled, for the reason given.
abbrev pub Stopped : Option RejectionReason → SimulatedOrder → Type 0
Stopped r o =
    (is_some o.terminal_timestamp_ns ≡ true) × (o.rejection_reason ≡ r) × (0 < o.remaining_quantity)

-- What each state of the lifecycle requires.
abbrev pub Shape : OrderState → SimulatedOrder → Type 0
Shape OrderState.pending_submit o = Live o
Shape OrderState.active o = Live o × (o.cancel_requested_ns ≡ none)
Shape OrderState.partially_filled o =
    Live o × (o.cancel_requested_ns ≡ none) × (o.remaining_quantity < o.original_quantity)
Shape OrderState.pending_cancel o = Live o × (is_some o.cancel_requested_ns ≡ true)
Shape OrderState.filled o =
    (is_some o.terminal_timestamp_ns ≡ true)
    × (o.rejection_reason ≡ none)
    × (o.remaining_quantity ≡ 0)
Shape OrderState.cancelled o = Stopped none o
Shape OrderState.expired o = Stopped none o
Shape OrderState.rejected o = Stopped (some RejectionReason.marketable_at_activation) o
Shape OrderState.invalidated o = Stopped (some RejectionReason.counterfactual_cross) o

pub record IsValid (o : SimulatedOrder) : Type 0 where
  pub request : IsValidRequest (request_of o)
  pub ranges : InRange o
  pub shape : Shape o.state o

pub validate_order_request_iff :
    (r : OrderRequest) → (validate_order_request r ≡ ok tt) ↔ IsValidRequest r
unfolding validate_order_request
validate_order_request_iff r = (λ h. ground arith, λ h. ground arith)

validate_ranges_iff : (o : SimulatedOrder) → (validate_ranges o ≡ ok tt) ↔ InRange o
unfolding validate_ranges
validate_ranges_iff o = (λ h. ground arith, λ h. ground arith)

validate_state_iff : (o : SimulatedOrder) → (validate_state o ≡ ok tt) ↔ Shape o.state o
unfolding validate_state
validate_state_iff o = (λ h. ground arith, λ h. ground arith)

-- The validation passes exactly the orders that fit the description: a valid request, fields in
-- range, and what the state of the lifecycle requires of the other fields.
pub validate_simulated_order_iff :
    (o : SimulatedOrder) → (validate_simulated_order o ≡ ok tt) ↔ IsValid o
unfolding validate_simulated_order
validate_simulated_order_iff o = (
  λ h. ground (
    arith,
    validate_order_request_iff (request_of o),
    validate_ranges_iff o,
    validate_state_iff o,
  ),
  λ h. ground (
    arith,
    validate_order_request_iff (request_of o),
    validate_ranges_iff o,
    validate_state_iff o,
  ),
)
