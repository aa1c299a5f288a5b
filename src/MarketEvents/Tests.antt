-- ===== src/MarketEvents/Tests.antt =====
-- market_events.py on an execution.
use itch_lab.Base.{◌≡◌, ◌↔◌, none, some}
use itch_lab.Base.Int.{negsuc}
use itch_lab.Base.Result.{ok}
use itch_lab.MarketEvents.{EventKind, MarketEvent, validate_market_event}
use itch_lab.MarketEvents.Shape.{InBounds, Shape, validate_market_event_iff}
use itch_lab.MarketEvents.Adapt.{Input, adapt_market_event}
use itch_lab.MarketEvents.RoundTrip.{row_of, adapt_market_event-row_of}

abbrev execution : MarketEvent
execution = record {
  message_index = 12;
  timestamp_ns = 34200000000000;
  symbol_id = 4;
  event_kind = EventKind.execute;
  primary_reference = some 77;
  secondary_reference = some 5001;
  side = some (negsuc 0);
  price4 = some 1000000;
  quantity = some 30;
  remaining_quantity = some 70;
  execution_price4 = none;
}

validate_market_event_example :
    (validate_market_event execution ≡ ok tt)
    ↔ (InBounds execution × Shape EventKind.execute execution)
validate_market_event_example = validate_market_event_iff execution

adapt_market_event_example :
    adapt_market_event (Input.row (row_of execution)) ≡ adapt_market_event (Input.event execution)
adapt_market_event_example = adapt_market_event-row_of execution
