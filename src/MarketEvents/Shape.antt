-- ===== src/MarketEvents/Shape.antt =====
-- market_events.py: the events that `validate_market_event` accepts, described kind by kind.
use itch_lab.Base.{ℕ, ◌≤◌, ◌≡◌, ◌↔◌, ◌⊎◌, true, Option, none, some, arith, is_some, eqb, not}
use itch_lab.Base.Int.{ℤ, pos, negsuc}
use itch_lab.Base.Result.{ok}
use itch_lab.Order.{absent_or, max_uint16, max_uint32, max_uint64, max_timestamp_ns}
use itch_lab.Order.Validity.{Within}
use itch_lab.MarketEvents.{
  EventKind, MarketEvent, in_bounds, side_ok, require_fields, require_absent, validate_fields,
  validate_kind, validate_shape, validate_market_event,
}

abbrev pub Present {ℓ} : {A : Type ℓ} → Option A → Type 0
Present o = is_some o ≡ true

-- A side, if it is there, is a buy or a sell.
abbrev pub IsSide : Option ℤ → Type 0
IsSide none = Unit {0}
IsSide (some s) = (s ≡ pos 1) ⊎ (s ≡ negsuc 0)

pub record InBounds (e : MarketEvent) : Type 0 where
  pub index : e.message_index ≤ max_uint64
  pub time : e.timestamp_ns ≤ max_timestamp_ns
  pub symbol : (1 ≤ e.symbol_id) × (e.symbol_id ≤ max_uint16)
  pub primary : Within 0 max_uint64 e.primary_reference
  pub secondary : Within 0 max_uint64 e.secondary_reference
  pub side : IsSide e.side
  pub price : Within 0 max_uint32 e.price4
  pub quantity : Within 1 max_uint64 e.quantity
  pub remaining : Within 0 max_uint64 e.remaining_quantity
  pub execution : Within 0 max_uint32 e.execution_price4

-- An event of an order: reference, side, price and both quantities are there.
abbrev pub Order : MarketEvent → Type 0
Order e =
    Present e.primary_reference
    × Present e.side
    × Present e.price4
    × Present e.quantity
    × Present e.remaining_quantity

-- Which fields an event of each kind has.
abbrev pub Shape : EventKind → MarketEvent → Type 0
Shape EventKind.add e =
    Order e
    × (e.secondary_reference ≡ none)
    × (e.execution_price4 ≡ none)
    × (e.remaining_quantity ≡ e.quantity)
Shape EventKind.execute e = Order e × Present e.secondary_reference × (e.execution_price4 ≡ none)
Shape EventKind.execute_price e =
    Order e × Present e.secondary_reference × Present e.execution_price4
Shape EventKind.cancel e = Order e × (e.secondary_reference ≡ none) × (e.execution_price4 ≡ none)
Shape EventKind.delete e =
    Order e
    × (e.secondary_reference ≡ none)
    × (e.execution_price4 ≡ none)
    × (e.remaining_quantity ≡ some 0)
Shape EventKind.replace e =
    Order e
    × Present e.secondary_reference
    × (e.execution_price4 ≡ none)
    × (e.remaining_quantity ≡ e.quantity)
Shape EventKind.trade e =
    Present e.primary_reference
    × Present e.secondary_reference
    × Present e.side
    × Present e.price4
    × Present e.quantity
    × (e.remaining_quantity ≡ none)
    × (e.execution_price4 ≡ none)
Shape EventKind.cross e =
    (e.primary_reference ≡ none)
    × Present e.secondary_reference
    × (e.side ≡ none)
    × Present e.price4
    × Present e.quantity
    × (e.remaining_quantity ≡ none)
    × (e.execution_price4 ≡ none)
Shape EventKind.broken_trade e =
    Present e.primary_reference
    × (e.secondary_reference ≡ none)
    × (e.side ≡ none)
    × (e.price4 ≡ none)
    × (e.quantity ≡ none)
    × (e.remaining_quantity ≡ none)
    × (e.execution_price4 ≡ none)
Shape EventKind.trading_state e =
    (e.primary_reference ≡ none)
    × (e.secondary_reference ≡ none)
    × (e.side ≡ none)
    × (e.price4 ≡ none)
    × (e.quantity ≡ none)
    × (e.remaining_quantity ≡ none)
    × (e.execution_price4 ≡ none)

in_bounds_iff :
    (e : MarketEvent)
    → (in_bounds e ≡ true) ↔ (
        Within 0 max_uint64 e.primary_reference
        × Within 0 max_uint64 e.secondary_reference
        × Within 0 max_uint32 e.price4
        × Within 0 max_uint64 e.quantity
        × Within 0 max_uint64 e.remaining_quantity
        × Within 0 max_uint32 e.execution_price4)
unfolding in_bounds
in_bounds_iff e = (λ h. ground arith, λ h. ground arith)

side_ok_iff : (s : Option ℤ) → (side_ok s ≡ true) ↔ IsSide s
unfolding side_ok
side_ok_iff s = ground arith

positive_iff :
    (q : Option ℕ)
    → (Within 0 max_uint64 q × (absent_or (λ v. not (eqb v 0)) q ≡ true)) ↔ Within 1 max_uint64 q
positive_iff none = ground arith
positive_iff (some q) = ground arith

pub validate_fields_iff : (e : MarketEvent) → (validate_fields e ≡ ok tt) ↔ InBounds e
unfolding validate_fields
validate_fields_iff e = (
  λ h.
      let (a, b, c, d, g, i) = (in_bounds_iff e).0 (ground (arith, h)) in
      record {
        index = ground (arith, h);
        time = ground (arith, h);
        symbol = ground (arith, h);
        primary = a;
        secondary = b;
        side = (side_ok_iff e.side).0 (ground (arith, h));
        price = c;
        quantity = (positive_iff e.quantity).0 (d, ground (arith, h));
        remaining = g;
        execution = i;
      },
  λ h.
      let q = (positive_iff e.quantity).1 h.quantity in
      let b =
        (in_bounds_iff e).1 (h.primary, h.secondary, h.price, q.0, h.remaining, h.execution) in
      let s = (side_ok_iff e.side).1 h.side in ground (arith, b, s, q.1, h.index, h.time, h.symbol),
)

pub validate_shape_iff : (e : MarketEvent) → (validate_shape e ≡ ok tt) ↔ Shape e.event_kind e
unfolding validate_shape validate_kind require_fields require_absent
validate_shape_iff e = (λ h. ground arith, λ h. ground arith)

-- The validation passes exactly the events whose numbers are in range and that have just the fields
-- of their kind, with the remainder that an addition, a replacement or a deletion must state.
pub validate_market_event_iff :
    (e : MarketEvent) → (validate_market_event e ≡ ok tt) ↔ (InBounds e × Shape e.event_kind e)
unfolding validate_market_event
validate_market_event_iff e = (
  λ h. ground (arith, validate_fields_iff e, validate_shape_iff e),
  λ h. ground (arith, validate_fields_iff e, validate_shape_iff e),
)
