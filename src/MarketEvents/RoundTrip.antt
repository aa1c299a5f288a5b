-- ===== src/MarketEvents/RoundTrip.antt =====
-- market_events.py: an event and its row are adapted alike.
use itch_lab.Base.{◌≡◌, refl, ℕ, Option, none, some, false, arith, if◌then◌else◌}
use itch_lab.Base.Int.{ℤ, pos}
use itch_lab.Base.Result.{ok, err}
use itch_lab.Order.{valid_int, absent_or, max_uint32, max_uint64}
use itch_lab.MarketEvents.{
  MarketEvent, event_error, in_bounds, side_ok, validate_fields, validate_market_event,
}
use itch_lab.MarketEvents.Adapt.{
  Value, Row, Head, Input, required_number, optional_number, adapt_kind, adapt_side, adapt_head,
  adapt_rest, is_unhashable, adapt_numbers, adapt_market_event,
}

abbrev pub value_of : Option ℕ → Value
value_of none = Value.absent
value_of (some n) = Value.number (pos n)

abbrev pub side_value : Option ℤ → Value
side_value none = Value.absent
side_value (some s) = Value.number s

-- The row of an event.
abbrev pub row_of : MarketEvent → Row
row_of e = record {
  message_index = Value.number (pos e.message_index);
  timestamp_ns = Value.number (pos e.timestamp_ns);
  symbol_id = Value.number (pos e.symbol_id);
  event_kind = Value.kind e.event_kind;
  primary_reference = value_of e.primary_reference;
  secondary_reference = value_of e.secondary_reference;
  side = side_value e.side;
  price4 = value_of e.price4;
  quantity = value_of e.quantity;
  remaining_quantity = value_of e.remaining_quantity;
  execution_price4 = value_of e.execution_price4;
}

abbrev pub head_of : MarketEvent → Head
head_of e = record {
  message_index = e.message_index;
  event_kind = e.event_kind;
  timestamp_ns = e.timestamp_ns;
  symbol_id = e.symbol_id;
}

optional_number-value_of :
    (o : Option ℕ) (hi i : ℕ)
    → optional_number (value_of o) hi i
      ≡ (if absent_or (λ v. valid_int v 0 hi) o then ok o else err (event_error (some i)))
unfolding optional_number
optional_number-value_of none hi i = refl
optional_number-value_of (some n) hi i = refl

adapt_side-side_value :
    (s : Option ℤ) (i : ℕ)
    → adapt_side (side_value s) i ≡ (if side_ok s then ok s else err (event_error (some i)))
unfolding adapt_side side_ok
adapt_side-side_value none i = refl
adapt_side-side_value (some s) i = refl

row_of-hashable : (s : Option ℤ) → is_unhashable (side_value s) ≡ false
row_of-hashable none = refl
row_of-hashable (some s) = refl

adapt_numbers-row_of :
    (e : MarketEvent)
    → adapt_numbers (row_of e) (head_of e) e.side
      ≡ (if in_bounds e then ok e else err (event_error (some e.message_index)))
unfolding adapt_numbers in_bounds
adapt_numbers-row_of e =
    rw
      (
        optional_number-value_of e.primary_reference max_uint64 e.message_index,
        optional_number-value_of e.secondary_reference max_uint64 e.message_index,
        optional_number-value_of e.price4 max_uint32 e.message_index,
        optional_number-value_of e.quantity max_uint64 e.message_index,
        optional_number-value_of e.remaining_quantity max_uint64 e.message_index,
        optional_number-value_of e.execution_price4 max_uint32 e.message_index,
      )
      (ground arith)

-- The adapter does to the row of an event what it does to the event: it accepts the same events,
-- returns them as they are, and raises the same errors on the others.
pub adapt_market_event-row_of :
    (e : MarketEvent)
    → adapt_market_event (Input.row (row_of e)) ≡ adapt_market_event (Input.event e)
unfolding adapt_market_event adapt_rest adapt_head adapt_kind required_number validate_market_event
    validate_fields
adapt_market_event-row_of e = ground (
  arith,
  adapt_numbers-row_of e,
  adapt_side-side_value e.side e.message_index,
  row_of-hashable e.side,
)
