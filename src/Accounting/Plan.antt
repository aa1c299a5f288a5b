-- ===== src/Accounting/Plan.antt =====
-- accounting.py: the arithmetic of a passive fill, on copies of the ledger's accounts.
use itch_lab.Base.{ℕ, not, some}
use itch_lab.Base.Int.{ℤ, pos, ◌+ℤ◌, ◌*ℤ◌, neg}
use itch_lab.Base.Dict.{Dict, insert}
use itch_lab.Base.Result.{Result, ok, ◌>>=◌, ◌>>◌, raise_if}
use itch_lab.Base.{nat_eq}
use itch_lab.Errors.{ErrorCode}
use itch_lab.Order.{SimulatedOrder, fail}
use itch_lab.QueueModel.{QueueFill}
use itch_lab.Accounting.{
  Totals, AccountingLedger, valid_ℤ, checked_int64, trade_cash_delta, trade_fee,
  mark_relative_value,
}
use itch_lab.Accounting.Marks.{position, apply_mark_to_copies, validate_reconciliation}

-- What the fill changes.
pub record FillPlan : Type 0 where
  pub positions : Dict ℕ ℤ
  pub marks : Dict ℕ ℕ
  pub totals : Totals
  pub inventory_after : ℤ
  pub cash_delta : ℤ
  pub fee : ℤ
  pub passive_fill_quantity : ℤ

-- The totals that a fill replaces.
abbrev pub fill_totals : ℤ → ℤ → ℤ → ℤ → Totals → Totals
fill_totals cash fees spread mark_to_market t = record t {
  gross_passive_cash = cash;
  maker_fees = fees;
  passive_spread_capture = spread;
  inventory_mark_to_market = mark_to_market;
}

-- The amounts of the fill, and the totals with them added.
pub record FillAmounts : Type 0 where
  pub cash_delta : ℤ
  pub fee : ℤ
  pub gross_passive_cash : ℤ
  pub maker_fees : ℤ
  pub passive_spread_capture : ℤ
  pub passive_fill_quantity : ℤ

unfoldable pub fill_amounts : AccountingLedger → QueueFill → SimulatedOrder → ℕ → Result FillAmounts
fill_amounts s f o mark = do
  cash_delta ← trade_cash_delta o.side f.price4 f.quantity
  fee ← trade_fee s.maker_fee_rate f.quantity
  cash ← checked_int64 (s.totals.gross_passive_cash +ℤ cash_delta)
  fees ← checked_int64 (s.totals.maker_fees +ℤ fee)
  gain ← mark_relative_value o.side f.price4 f.quantity mark
  spread ← checked_int64 (s.totals.passive_spread_capture +ℤ gain)
  quantity ← checked_int64 (s.passive_fill_quantity +ℤ pos f.quantity)
  ok (record {
    cash_delta = cash_delta;
    fee = fee;
    gross_passive_cash = cash;
    maker_fees = fees;
    passive_spread_capture = spread;
    passive_fill_quantity = quantity;
  })

unfoldable pub plan_fill : AccountingLedger → QueueFill → SimulatedOrder → ℕ → Result FillPlan
plan_fill s f o mark = do
  m ← apply_mark_to_copies o.symbol_id mark s.positions s.marks s.totals.inventory_mark_to_market
  let inventory_after = position o.symbol_id m.positions +ℤ o.side *ℤ pos f.quantity
  raise_if (not (valid_ℤ inventory_after (neg (pos s.inventory_limit)) (pos s.inventory_limit)))
      (fail ErrorCode.inventory_limit (some f.simulated_order_id) (some f.market_message_index))
  a ← fill_amounts s f o mark
  let totals =
      fill_totals a.gross_passive_cash a.maker_fees a.passive_spread_capture
        m.inventory_mark_to_market s.totals
  _ ← validate_reconciliation (insert o.symbol_id inventory_after m.positions) m.marks totals
  ok (record {
    positions = m.positions;
    marks = m.marks;
    totals = totals;
    inventory_after = inventory_after;
    cash_delta = a.cash_delta;
    fee = a.fee;
    passive_fill_quantity = a.passive_fill_quantity;
  })
