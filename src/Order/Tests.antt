-- ===== src/Order/Tests.antt =====
-- order.py on one order.
use itch_lab.Base.{◌≡◌, ◌↔◌, none, some}
use itch_lab.Base.Int.{negsuc}
use itch_lab.Base.Result.{ok}
use itch_lab.Order.{OrderState, SimulatedOrder, validate_simulated_order}
use itch_lab.Order.Validity.{IsValid, validate_simulated_order_iff}

abbrev half_filled : SimulatedOrder
half_filled = record {
  simulated_order_id = 5;
  decision_message_index = 12;
  prediction_message_index = some 11;
  requested_timestamp_ns = 34200000000000;
  effective_timestamp_ns = 34200000500000;
  symbol_id = 1;
  side = negsuc 0;
  price4 = 1502500;
  original_quantity = 200;
  remaining_quantity = 100;
  queue_ahead_initial = some 0;
  state = OrderState.partially_filled;
  cancel_requested_ns = none;
  terminal_timestamp_ns = none;
  rejection_reason = none;
}

validate_simulated_order_example :
    (validate_simulated_order half_filled ≡ ok tt) ↔ IsValid half_filled
validate_simulated_order_example = validate_simulated_order_iff half_filled
