-- ===== src/MarketEvents/Adapt.antt =====
-- market_events.py: events made from rows of values that nothing is known about.
use Prim.Native.String.{String}
use text.Mathlib.Text.{◌==◌ as same_text}
use itch_lab.Base.{ℕ, Bool, true, false, Option, none, some, if◌then◌else◌}
use itch_lab.Base.Int.{ℤ, pos}
use itch_lab.Base.Result.{Result, ok, err, ◌>>=◌, ◌>>◌}
use itch_lab.Errors.{SimulationError}
use itch_lab.Order.{valid_int, valid_side, max_uint16, max_uint32, max_uint64, max_timestamp_ns}
use itch_lab.MarketEvents.{EventKind, MarketEvent, event_error, validate_market_event}

-- A Python value, as far as the adapter tells values apart. `absent` is None, and a missing key;
-- `equal` is a value of another type that equals an integer and hashes like it, as 1.0 does;
-- `unhashable` is one without a hash, as a list is.
pub data Value : Type 0 where
  absent : Value
  number : ℤ → Value
  equal : ℤ → Value
  unhashable : Value
  boolean : Bool → Value
  str : String → Value
  kind : EventKind → Value
  other : Value

-- `row.get(name)` for each name.
pub record Row : Type 0 where
  pub message_index : Value
  pub timestamp_ns : Value
  pub symbol_id : Value
  pub event_kind : Value
  pub primary_reference : Value
  pub secondary_reference : Value
  pub side : Value
  pub price4 : Value
  pub quantity : Value
  pub remaining_quantity : Value
  pub execution_price4 : Value

-- `EventKind(text)`
unfoldable pub kind_of_text : String → Option EventKind
kind_of_text s =
    if same_text s "add"
    then some EventKind.add
    else if same_text s "execute"
    then some EventKind.execute
    else if same_text s "execute_price"
    then some EventKind.execute_price
    else if same_text s "cancel"
    then some EventKind.cancel
    else if same_text s "delete"
    then some EventKind.delete
    else if same_text s "replace"
    then some EventKind.replace
    else if same_text s "trade"
    then some EventKind.trade
    else if same_text s "cross"
    then some EventKind.cross
    else if same_text s "broken_trade"
    then some EventKind.broken_trade
    else if same_text s "trading_state"
    then some EventKind.trading_state
    else none

-- A value that passes `_valid_int`, with the error for one that does not.
unfoldable pub required_number : Value → ℕ → ℕ → SimulationError → Result ℕ
required_number (number (pos n)) lo hi e = if valid_int n lo hi then ok n else err e
required_number _ lo hi e = err e

-- `_optional_int`
unfoldable pub optional_number : Value → ℕ → ℕ → Result (Option ℕ)
optional_number absent hi index = ok none
optional_number (number (pos n)) hi index =
    if valid_int n 0 hi then ok (some n) else err (event_error (some index))
optional_number _ hi index = err (event_error (some index))

unfoldable pub adapt_kind : Value → ℕ → Result EventKind
adapt_kind (kind k) index = ok k
adapt_kind (str s) index = elim (kind_of_text s) [
  | none ↦ err (event_error (some index))
  | some k ↦ ok k
]
adapt_kind _ index = err (event_error (some index))

-- The side of a value that has a hash: `raw_side not in {-1, 1}` compares it with the two.
unfoldable pub adapt_side : Value → ℕ → Result (Option ℤ)
adapt_side absent index = ok none
adapt_side (number s) index = if valid_side s then ok (some s) else err (event_error (some index))
adapt_side (equal s) index = if valid_side s then ok (some s) else err (event_error (some index))
adapt_side _ index = err (event_error (some index))

-- The fields of the event before its side.
pub record Head : Type 0 where
  pub message_index : ℕ
  pub event_kind : EventKind
  pub timestamp_ns : ℕ
  pub symbol_id : ℕ

unfoldable pub adapt_head : Row → Result Head
adapt_head r = do
  index ← required_number r.message_index 0 max_uint64 (event_error none)
  event_kind ← adapt_kind r.event_kind index
  timestamp ← required_number r.timestamp_ns 0 max_timestamp_ns (event_error (some index))
  symbol ← required_number r.symbol_id 1 max_uint16 (event_error (some index))
  ok (record {
    message_index = index;
    event_kind = event_kind;
    timestamp_ns = timestamp;
    symbol_id = symbol;
  })

-- The event, from its first fields and the optional numbers.
unfoldable pub adapt_numbers : Row → Head → Option ℤ → Result MarketEvent
adapt_numbers r h side = do
  primary ← optional_number r.primary_reference max_uint64 h.message_index
  secondary ← optional_number r.secondary_reference max_uint64 h.message_index
  price ← optional_number r.price4 max_uint32 h.message_index
  quantity ← optional_number r.quantity max_uint64 h.message_index
  remaining ← optional_number r.remaining_quantity max_uint64 h.message_index
  execution ← optional_number r.execution_price4 max_uint32 h.message_index
  ok (record {
    message_index = h.message_index;
    timestamp_ns = h.timestamp_ns;
    symbol_id = h.symbol_id;
    event_kind = h.event_kind;
    primary_reference = primary;
    secondary_reference = secondary;
    side = side;
    price4 = price;
    quantity = quantity;
    remaining_quantity = remaining;
    execution_price4 = execution;
  })

abbrev pub is_unhashable : Value → Bool
is_unhashable unhashable = true
is_unhashable _ = false

-- The rest of `adapt_market_event`, from the side on; `none` is the TypeError of a value that the
-- set cannot look for.
unfoldable pub adapt_rest : Row → Head → Option (Result MarketEvent)
adapt_rest r h =
    if is_unhashable r.side
    then none
    else some (do
      side ← adapt_side r.side h.message_index
      e ← adapt_numbers r h side
      validate_market_event e
      ok e)

-- What `adapt_market_event` is given. An event's fields have the types that they are declared with.
pub data Input : Type 0 where
  row : Row → Input
  event : MarketEvent → Input
  neither : Input

unfoldable pub adapt_market_event : Input → Option (Result MarketEvent)
adapt_market_event (Input.event e) = some (validate_market_event e >> ok e)
adapt_market_event (Input.row r) = elim (adapt_head r) [
  | err x ↦ some (err x)
  | ok h ↦ adapt_rest r h
]
adapt_market_event Input.neither = some (err (event_error none))
