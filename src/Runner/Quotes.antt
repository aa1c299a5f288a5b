-- ===== src/Runner/Quotes.antt =====
-- runner.py: `_refresh_quotes`, the orders that a decision asks for.
use itch_lab.Base.{
  ℕ, ◌+◌, ◌&&◌, Bool, true, not, Option, none, some, eqb, is_some, nat_eq, if◌then◌else◌,
}
use itch_lab.Base.Int.{ℤ, pos, negsuc}
use itch_lab.Base.Action.{Action, ◌>>=◌, ◌>>◌, pure}
use itch_lab.Order.{OrderRequest, SimulatedOrder}
use itch_lab.StateMachine.{OrderStateMachine, occupied_order}
use itch_lab.StateMachine.Methods.{submit, request_cancel}
use itch_lab.Runner.{Decision, QuoteProposal}

-- `OrderRequest(...)`
abbrev pub request_for : Decision → ℤ → QuoteProposal → ℕ → ℕ → ℕ → OrderRequest
request_for decision side proposal timestamp_ns message_index next_order_id = record {
  simulated_order_id = next_order_id;
  decision_message_index = message_index;
  prediction_message_index = decision.prediction_message_index;
  requested_timestamp_ns = timestamp_ns;
  symbol_id = decision.symbol_id;
  side = side;
  price4 = proposal.price4;
  quantity = proposal.quantity;
}

-- `current.price4 != desired_price`
abbrev pub priced_apart : SimulatedOrder → Option QuoteProposal → Bool
priced_apart current none = true
priced_apart current (some proposal) = not (eqb current.price4 proposal.price4)

-- `state.request_cancel(...)`, whose transition is not used.
unfoldable pub withdraw : SimulatedOrder → ℕ → ℕ → Action OrderStateMachine (Unit {0})
withdraw current timestamp_ns message_index = do
  _ ← request_cancel current.simulated_order_id timestamp_ns message_index
  pure tt

-- The body of the loop, with the order at the slot.
unfoldable pub refresh_with :
    Decision
    → ℤ
    → Option QuoteProposal
    → ℕ
    → ℕ
    → ℕ
    → Option SimulatedOrder
    → Action OrderStateMachine ℕ
refresh_with decision side proposal timestamp_ns message_index next_order_id (some current) =
    if priced_apart current proposal && not (is_some current.cancel_requested_ns)
    then (do withdraw current timestamp_ns message_index; pure next_order_id)
    else pure next_order_id
refresh_with decision side none timestamp_ns message_index next_order_id none = pure next_order_id
refresh_with decision side (some proposal) timestamp_ns message_index next_order_id none = do
  _ ← submit (request_for decision side proposal timestamp_ns message_index next_order_id)
  pure (next_order_id + 1)

-- The body of the loop over the two sides.
unfoldable pub refresh_side :
    Decision → ℤ → Option QuoteProposal → ℕ → ℕ → ℕ → Action OrderStateMachine ℕ
refresh_side decision side proposal timestamp_ns message_index next_order_id = do
  current ← occupied_order (decision.symbol_id, side)
  refresh_with decision side proposal timestamp_ns message_index next_order_id current

-- `_refresh_quotes`
unfoldable pub refresh_quotes : Decision → ℕ → ℕ → ℕ → Action OrderStateMachine ℕ
refresh_quotes decision timestamp_ns message_index next_order_id = do
  next ← refresh_side decision (pos 1) decision.bid timestamp_ns message_index next_order_id
  refresh_side decision (negsuc 0) decision.ask timestamp_ns message_index next
