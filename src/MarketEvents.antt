-- ===== src/MarketEvents.antt =====
-- python/src/itchlab_research/simulation/market_events.py: the events that the queue model reads,
-- and their validation. `Adapt` has the rows that they are made from.
pub mod Shape
pub mod Adapt
pub mod RoundTrip
mod Tests
use itch_lab.Base.{
  ℕ, Bool, true, false, ◌&&◌, ◌||◌, not, Option, none, some, List, [], ◌∷◌, eqb, is_some,
  if◌then◌else◌,
}
use itch_lab.Base.Int.{ℤ}
use itch_lab.Base.Result.{Result, ok, err, ◌>>=◌, ◌>>◌, raise_if}
use itch_lab.Errors.{ErrorCode, SimulationError}
use itch_lab.Order.{
  fail, valid_int, absent_or, valid_side, max_uint16, max_uint32, max_uint64, max_timestamp_ns,
}

pub data EventKind : Type 0 where
  add execute execute_price cancel delete replace : EventKind
  trade cross broken_trade trading_state : EventKind

pub record MarketEvent : Type 0 where
  pub message_index : ℕ
  pub timestamp_ns : ℕ
  pub symbol_id : ℕ
  pub event_kind : EventKind
  pub primary_reference : Option ℕ
  pub secondary_reference : Option ℕ
  pub side : Option ℤ
  pub price4 : Option ℕ
  pub quantity : Option ℕ
  pub remaining_quantity : Option ℕ
  pub execution_price4 : Option ℕ

-- The names that `_require_fields` and `_require_absent` take.
pub data Field : Type 0 where
  primary_ref secondary_ref side_field price_field : Field
  quantity_field remaining_field execution_field : Field

-- `getattr(event, name) is not None`
abbrev pub present : MarketEvent → Field → Bool
present e Field.primary_ref = is_some e.primary_reference
present e Field.secondary_ref = is_some e.secondary_reference
present e Field.side_field = is_some e.side
present e Field.price_field = is_some e.price4
present e Field.quantity_field = is_some e.quantity
present e Field.remaining_field = is_some e.remaining_quantity
present e Field.execution_field = is_some e.execution_price4

-- `_fail`
abbrev pub event_error : Option ℕ → SimulationError
event_error message_index = fail ErrorCode.queue_state none message_index

-- `_require_fields`
unfoldable pub require_fields : MarketEvent → List Field → Result (Unit {0})
require_fields e [] = ok tt
require_fields e (f ∷ fs) = do
  raise_if (not (present e f)) (event_error (some e.message_index))
  require_fields e fs

-- `_require_absent`
unfoldable pub require_absent : MarketEvent → List Field → Result (Unit {0})
require_absent e [] = ok tt
require_absent e (f ∷ fs) = do
  raise_if (present e f) (event_error (some e.message_index))
  require_absent e fs

-- The loop over the optional numbers.
unfoldable pub in_bounds : MarketEvent → Bool
in_bounds e =
    absent_or (λ v. valid_int v 0 max_uint64) e.primary_reference
    && absent_or (λ v. valid_int v 0 max_uint64) e.secondary_reference
    && absent_or (λ v. valid_int v 0 max_uint32) e.price4
    && absent_or (λ v. valid_int v 0 max_uint64) e.quantity
    && absent_or (λ v. valid_int v 0 max_uint64) e.remaining_quantity
    && absent_or (λ v. valid_int v 0 max_uint32) e.execution_price4

unfoldable pub side_ok : Option ℤ → Bool
side_ok none = true
side_ok (some s) = valid_side s

-- The checks that do not depend on the kind.
unfoldable pub validate_fields : MarketEvent → Result (Unit {0})
validate_fields e = do
  raise_if (not (valid_int e.message_index 0 max_uint64)) (event_error none)
  raise_if (not (valid_int e.timestamp_ns 0 max_timestamp_ns)) (event_error (some e.message_index))
  raise_if (not (valid_int e.symbol_id 1 max_uint16)) (event_error (some e.message_index))
  raise_if (not (in_bounds e)) (event_error (some e.message_index))
  raise_if (not (side_ok e.side)) (event_error (some e.message_index))
  raise_if (not (absent_or (λ q. not (eqb q 0)) e.quantity)) (event_error (some e.message_index))

-- `event_kind in lifecycle`
abbrev pub is_lifecycle : EventKind → Bool
is_lifecycle EventKind.add = true
is_lifecycle EventKind.execute = true
is_lifecycle EventKind.execute_price = true
is_lifecycle EventKind.cancel = true
is_lifecycle EventKind.delete = true
is_lifecycle EventKind.replace = true
is_lifecycle _ = false

-- `event_kind in {EXECUTE, EXECUTE_PRICE, REPLACE}`
abbrev pub needs_secondary : EventKind → Bool
needs_secondary EventKind.execute = true
needs_secondary EventKind.execute_price = true
needs_secondary EventKind.replace = true
needs_secondary _ = false

abbrev pub is_execute_price : EventKind → Bool
is_execute_price EventKind.execute_price = true
is_execute_price _ = false

-- `remaining_quantity == quantity`
abbrev pub same_number : Option ℕ → Option ℕ → Bool
same_number none none = true
same_number (some a) (some b) = eqb a b
same_number _ _ = false

-- The last chain of tests on the kind.
unfoldable pub validate_kind : EventKind → MarketEvent → Result (Unit {0})
validate_kind EventKind.add e = do
  require_absent e (Field.secondary_ref ∷ [])
  raise_if (not (same_number e.remaining_quantity e.quantity)) (event_error (some e.message_index))
validate_kind EventKind.cancel e = require_absent e (Field.secondary_ref ∷ [])
validate_kind EventKind.delete e = do
  require_absent e (Field.secondary_ref ∷ [])
  raise_if (not (same_number e.remaining_quantity (some 0))) (event_error (some e.message_index))
validate_kind EventKind.replace e =
    raise_if (not (same_number e.remaining_quantity e.quantity))
      (event_error (some e.message_index))
validate_kind EventKind.trade e = do
  require_fields e (
      Field.primary_ref ∷ Field.secondary_ref ∷ Field.side_field ∷ Field.price_field
      ∷ Field.quantity_field ∷ [])
  require_absent e (Field.remaining_field ∷ [])
validate_kind EventKind.cross e = do
  require_fields e (Field.secondary_ref ∷ Field.price_field ∷ Field.quantity_field ∷ [])
  require_absent e (Field.primary_ref ∷ Field.side_field ∷ Field.remaining_field ∷ [])
validate_kind EventKind.broken_trade e = do
  require_fields e (Field.primary_ref ∷ [])
  require_absent e (
      Field.secondary_ref ∷ Field.side_field ∷ Field.price_field ∷ Field.quantity_field
      ∷ Field.remaining_field ∷ [])
validate_kind EventKind.trading_state e = require_absent e (
    Field.primary_ref ∷ Field.secondary_ref ∷ Field.side_field ∷ Field.price_field
    ∷ Field.quantity_field ∷ Field.remaining_field ∷ [])
validate_kind _ e = ok tt

-- `if c: ...`, of a check.
abbrev pub when : Bool → Result (Unit {0}) → Result (Unit {0})
when c check = if c then check else ok tt

-- The checks that depend on the kind.
unfoldable pub validate_shape : MarketEvent → Result (Unit {0})
validate_shape e = do
  when (is_lifecycle e.event_kind) (
      require_fields e (
        Field.primary_ref ∷ Field.side_field ∷ Field.price_field ∷ Field.quantity_field
        ∷ Field.remaining_field ∷ []))
  when (needs_secondary e.event_kind) (require_fields e (Field.secondary_ref ∷ []))
  when (is_execute_price e.event_kind) (require_fields e (Field.execution_field ∷ []))
  when (not (is_execute_price e.event_kind)) (require_absent e (Field.execution_field ∷ []))
  validate_kind e.event_kind e

unfoldable pub validate_market_event : MarketEvent → Result (Unit {0})
validate_market_event e = do validate_fields e; validate_shape e
