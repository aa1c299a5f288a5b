-- ===== src/Runner/Fills.antt =====
-- runner.py: the rows of the fills, and their markouts.
use itch_lab.Base.{ℕ, ◌+◌, Option, none, some, List, [], ◌∷◌, ◌++◌, leb, nat_eq, if◌then◌else◌}
use itch_lab.Base.Int.{ℤ, pos, ◌*ℤ◌, ◌-ℤ◌}
use itch_lab.Base.Dict.{Dict, lookup}
use itch_lab.Order.{SimulatedOrder}
use itch_lab.StateMachine.{order}
use itch_lab.QueueModel.{QueueFill}
use itch_lab.QueueModel.Method.{Method, ◌>>=◌, ◌>>◌, pure, modify}
use itch_lab.Accounting.{AccountedFill}
use itch_lab.Accounting.Fills.{record_queue_fill}
use itch_lab.Runner.{FillRow, Day, on_state, on_ledger}

-- `_MARKOUT_HORIZON_NS`
abbrev pub markout_horizon_ns : ℕ
markout_horizon_ns = 100000000

-- The row that `_account_fill_row` returns.
abbrev pub fill_row : AccountedFill → SimulatedOrder → ℕ → ℕ → FillRow
fill_row accounted o mark_mid2 scenario_fill_id = record {
  fill_id = scenario_fill_id;
  simulated_order_id = accounted.simulated_order_id;
  market_message_index = accounted.market_message_index;
  timestamp_ns = accounted.timestamp_ns;
  symbol_id = o.symbol_id;
  side = o.side;
  price4 = accounted.price4;
  quantity = accounted.quantity;
  fee_microusd = accounted.fee_microusd;
  cash_delta_microusd = accounted.cash_delta_microusd;
  inventory_after = accounted.inventory_after;
  fill_mid2 = mark_mid2;
  future_mid2 = none;
  adverse_selection_100ms_microusd = none;
}

module _ {S : Type 0} where
  abbrev pub appended : FillRow → Day S → Day S
  appended row d = record d { fills = d.fills ++ row ∷ []; next_fill_id = d.next_fill_id + 1 }

  -- `_account_fill_row`, and the row appended.
  unfoldable pub account_fill : QueueFill → ℕ → Method (Day S) (Unit {0})
  account_fill queue_fill mark_mid2 = do
    o ← on_state (order queue_fill.simulated_order_id)
    accounted ← on_ledger (record_queue_fill queue_fill o mark_mid2)
    modify (λ d. appended (fill_row accounted o mark_mid2 d.next_fill_id) d)

  -- The loop over the fills of an event.
  unfoldable pub account_fills : List QueueFill → ℕ → Method (Day S) (Unit {0})
  account_fills [] mark_mid2 = pure tt
  account_fills (f ∷ fs) mark_mid2 = do account_fill f mark_mid2; account_fills fs mark_mid2

-- The midpoint of the first quote at or after the horizon.
unfoldable pub future_mid : ℕ → List (ℕ × ℕ) → Option ℕ
future_mid horizon [] = none
future_mid horizon ((timestamp_ns, mid) ∷ quotes) =
    let rest = future_mid horizon quotes in if leb horizon timestamp_ns then some mid else rest

-- side * (fill_mid2 - future_mid2) * quantity * 50
abbrev pub adverse_selection : FillRow → ℕ → ℤ
adverse_selection f future = f.side *ℤ (pos f.fill_mid2 -ℤ pos future) *ℤ pos f.quantity *ℤ pos 50

abbrev pub marked_out : FillRow → Option ℕ → FillRow
marked_out f none = f
marked_out f (some future) = record f {
  future_mid2 = some future;
  adverse_selection_100ms_microusd = some (adverse_selection f future);
}

-- `_apply_markouts`: `none` stands for the KeyError of a symbol without a timeline.
unfoldable pub apply_markouts : List FillRow → Dict ℕ (List (ℕ × ℕ)) → Option (List FillRow)
apply_markouts [] quote_timeline = some []
apply_markouts (f ∷ fs) quote_timeline = elim (lookup f.symbol_id quote_timeline) [
  | none ↦ none
  | some quotes ↦ elim (apply_markouts fs quote_timeline) [
    | none ↦ none
    | some gs ↦ some (marked_out f (future_mid (f.timestamp_ns + markout_horizon_ns) quotes) ∷ gs)
  ]
]
