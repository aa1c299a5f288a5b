-- ===== src/Accounting/Fills.antt =====
-- accounting.py: accounting one passive fill.
use itch_lab.Base.{
  ℕ, ◌+◌, ◌-◌, Bool, false, ◌&&◌, ◌||◌, not, none, some, List, [], ◌∷◌, ◌++◌, nat_eq, ltb, eqb,
}
use itch_lab.Base.Int.{abs}
use itch_lab.Base.Dict.{insert}
use itch_lab.Base.Action.{Action, ◌>>=◌, ◌>>◌, pure, lift, raise_if, gets, modify}
use itch_lab.Errors.{ErrorCode}
use itch_lab.Order.{
  SimulatedOrder, fail, valid_int, max_uint32, max_uint64, max_timestamp_ns,
  validate_simulated_order,
}
use itch_lab.QueueModel.{QueueFill}
use itch_lab.Accounting.{AccountedFill, AccountingLedger, validate_mark_mid2}
use itch_lab.Accounting.Snapshot.{max_abs_of}
use itch_lab.Accounting.Plan.{FillPlan, plan_fill}
use Prim.Native.Nat.{max}

-- `_validate_queue_fill`
unfoldable pub validate_queue_fill : QueueFill → SimulatedOrder → Action AccountingLedger (Unit {0})
validate_queue_fill f o = do
  lift (validate_simulated_order o)
  raise_if
      (not (eqb f.simulated_order_id o.simulated_order_id)
        || not (eqb f.price4 o.price4)
        || not (eqb f.remaining_quantity_after o.remaining_quantity))
      (fail ErrorCode.simulation_anomaly (some f.simulated_order_id) (some f.market_message_index))
  raise_if
      (not (valid_int f.market_message_index 0 max_uint64)
        || not (valid_int f.match_number 0 max_uint64))
      (fail ErrorCode.simulation_anomaly none none)
  raise_if (not (valid_int f.timestamp_ns 0 max_timestamp_ns)) (fail ErrorCode.timestamp none none)
  raise_if (not (valid_int f.price4 0 max_uint32)) (fail ErrorCode.price none none)
  raise_if (not (valid_int f.quantity 1 max_uint64)) (fail ErrorCode.quantity none none)
  raise_if
      (not (valid_int f.queue_ahead_before 0 max_uint64)
        || not (valid_int f.queue_ahead_after 0 f.queue_ahead_before))
      (fail ErrorCode.queue_state none none)

-- `key in self._fill_keys`
abbrev pub has_key : ℕ × ℕ × ℕ → List (ℕ × ℕ × ℕ) → Bool
has_key k [] = false
has_key k (j ∷ ks) = eqb k.0 j.0 && eqb k.1 j.1 && eqb k.2 j.2 || has_key k ks

abbrev pub key_of : QueueFill → ℕ × ℕ × ℕ
key_of f = (f.simulated_order_id, f.market_message_index, f.match_number)

-- The checks of the fill against what was accounted before: not seen before, and in the order of
-- the lifecycle.
unfoldable pub check_sequence : QueueFill → SimulatedOrder → Action AccountingLedger (Unit {0})
check_sequence f o = do
  s ← gets (λ s. s)
  raise_if (has_key (key_of f) s.fill_keys)
      (fail ErrorCode.simulation_anomaly (some f.simulated_order_id) (some f.market_message_index))
  raise_if (ltb max_uint64 s.next_fill_id) (fail ErrorCode.simulation_anomaly none none)
  raise_if
      (not (
        eqb (max_abs_of f.simulated_order_id s.accounted_quantity_by_order + f.quantity)
          (o.original_quantity - o.remaining_quantity)))
      (fail ErrorCode.simulation_anomaly (some f.simulated_order_id) (some f.market_message_index))

-- `AccountedFill(...)`
abbrev pub accounted : QueueFill → FillPlan → AccountingLedger → AccountedFill
accounted f p s = record {
  fill_id = s.next_fill_id;
  simulated_order_id = f.simulated_order_id;
  market_message_index = f.market_message_index;
  timestamp_ns = f.timestamp_ns;
  price4 = f.price4;
  quantity = f.quantity;
  fee_microusd = p.fee;
  cash_delta_microusd = p.cash_delta;
  inventory_after = p.inventory_after;
}

-- The new ledger, after a fill whose plan is made.
abbrev pub filled : QueueFill → SimulatedOrder → FillPlan → AccountingLedger → AccountingLedger
filled f o p s = record s {
  positions = insert o.symbol_id p.inventory_after p.positions;
  marks = p.marks;
  max_abs_positions =
      insert o.symbol_id (max (max_abs_of o.symbol_id s.max_abs_positions) (abs p.inventory_after))
        s.max_abs_positions;
  accounted_quantity_by_order =
      insert f.simulated_order_id
        (max_abs_of f.simulated_order_id s.accounted_quantity_by_order + f.quantity)
        s.accounted_quantity_by_order;
  fill_keys = key_of f ∷ s.fill_keys;
  fills = s.fills ++ accounted f p s ∷ [];
  next_fill_id = s.next_fill_id + 1;
  revision = s.revision + 1;
  passive_fill_quantity = p.passive_fill_quantity;
  totals = p.totals;
}

unfoldable pub record_queue_fill :
    QueueFill → SimulatedOrder → ℕ → Action AccountingLedger AccountedFill
record_queue_fill f o mark_mid2 = do
  s ← gets (λ s. s)
  raise_if s.settled (fail ErrorCode.simulation_anomaly none none)
  validate_queue_fill f o
  mark ← lift (validate_mark_mid2 mark_mid2)
  check_sequence f o
  p ← lift (plan_fill s f o mark)
  modify (filled f o p)
  pure (accounted f p s)
