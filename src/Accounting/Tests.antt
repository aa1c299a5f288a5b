-- ===== src/Accounting/Tests.antt =====
-- Runs of accounting.py on a small ledger.
use itch_lab.Base.{◌≡◌, refl, ℕ, inr, none, some, List, [], ◌∷◌, nat_eq}
use itch_lab.Base.Int.{ℤ, pos, negsuc, ◌+ℤ◌, ◌-ℤ◌, ◌*ℤ◌}
use itch_lab.Base.Dict.{IsDict, Dict, lookup, insert}
use itch_lab.Base.Result.{ok}
use itch_lab.Order.{OrderState, SimulatedOrder}
use itch_lab.QueueModel.{QueueFill}
use itch_lab.Accounting.{
  AccountingLedger, PreparedTerminalAccounting, TerminalTrade, Totals, empty_ledger, no_totals,
  cash_value, checked_int64,
}
use itch_lab.Accounting.Marks.{Marked, apply_mark_to_copies, mark_change, validate_reconciliation}
use itch_lab.Accounting.Fills.{record_queue_fill}
use itch_lab.Accounting.Balance.{MarkedAt, apply_mark_ok}
use itch_lab.Accounting.FillBranches.{Outcome}
use itch_lab.Accounting.FillOutcome.{
  IsBalancedLedger, Accounted, record_queue_fill-Outcome, empty_ledger-IsBalanced,
}
use itch_lab.Accounting.Terminal.{prepare_terminal_accounting, commit_terminal_accounting}
use itch_lab.Accounting.{
  validate_fee_rate, validate_symbol_id, validate_mark_mid2, trade_cash_delta, checked_sum_from,
  mark_relative_value, marked_value, trade_fee,
}
use itch_lab.Accounting.Liquidation.{
  plan_terminal, mark_trades, validate_terminal_trade, nonzero_symbols, close_trades, close_trade,
  insert_item, sorted_items,
}
use itch_lab.Accounting.Marks.{marked_values, reconcile}
use itch_lab.Accounting.Settlement.{Settles, prepare_commit}
use itch_lab.Accounting.Session.{Call, run, session-IsBalanced}

abbrev bought : SimulatedOrder
bought = record {
  simulated_order_id = 1;
  decision_message_index = 3;
  prediction_message_index = none;
  requested_timestamp_ns = 1000;
  effective_timestamp_ns = 1500;
  symbol_id = 4;
  side = pos 1;
  price4 = 1000000;
  original_quantity = 100;
  remaining_quantity = 70;
  queue_ahead_initial = some 40;
  state = OrderState.partially_filled;
  cancel_requested_ns = none;
  terminal_timestamp_ns = none;
  rejection_reason = none;
}

abbrev fill : QueueFill
fill = record {
  simulated_order_id = 1;
  market_message_index = 7;
  timestamp_ns = 2000;
  match_number = 9;
  price4 = 1000000;
  quantity = 30;
  queue_ahead_before = 0;
  queue_ahead_after = 0;
  remaining_quantity_after = 70;
}

-- A rebate of 2000 microdollars a share, and at most 1000 shares.
abbrev ledger : AccountingLedger
ledger = empty_ledger (negsuc 1999) 1000

record_queue_fill_example :
    Outcome ledger
      (Accounted fill bought 2000100 ledger)
      (record_queue_fill fill bought 2000100 ledger)
record_queue_fill_example =
    record_queue_fill-Outcome fill bought 2000100 ledger
      (empty_ledger-IsBalanced (negsuc 1999) 1000)

abbrev calls : List Call
calls =
    Call.marks 4 1999900
    ∷ Call.fills fill bought 2000100
    ∷ Call.fills fill bought 2000100
    ∷ Call.marks 4 2000300
    ∷ []

session_example : IsBalancedLedger (run calls ledger)
session_example = session-IsBalanced calls ledger (empty_ledger-IsBalanced (negsuc 1999) 1000)

-- Thirty shares bought at the price of the mark.
abbrev held : Dict ℕ ℤ
held = (4, pos 30) ∷ []

abbrev marks : Dict ℕ ℕ
marks = (4, 2000000) ∷ []

abbrev totals : Totals
totals = record no_totals { gross_passive_cash = cash_value (pos 1) 1000000 30 }

abbrev moved : Marked
moved = record {
  positions = held;
  marks = insert 4 2000300 marks;
  inventory_mark_to_market = pos 450000;
}

moved_mark : apply_mark_to_copies 4 2000300 held marks (pos 0) ≡ ok moved
unfolding apply_mark_to_copies mark_change checked_int64 lookup ◌*ℤ◌ ◌-ℤ◌ ◌+ℤ◌
moved_mark = refl

apply_mark_example : MarkedAt 4 2000300 held marks (pos 0) moved
unfolding lookup
apply_mark_example =
    apply_mark_ok 4 2000300 held marks (pos 0) (refl, tt) ((inr refl), tt) moved_mark

abbrev holding : AccountingLedger
holding = record ledger { positions = held; marks = marks; totals = totals }

abbrev sale : TerminalTrade
sale = record {
  symbol_id = 4;
  side = negsuc 0;
  price4 = 1000000;
  quantity = 30;
  mark_mid2 = 2000100;
  timestamp_ns = 57600000000000;
}

abbrev plan : PreparedTerminalAccounting
plan = record {
  identity = 0;
  revision = 0;
  records =
      (record {
        liquidation_id = 0;
        timestamp_ns = 57600000000000;
        symbol_id = 4;
        side = negsuc 0;
        price4 = 1000000;
        quantity = 30;
        fee_microusd = pos 90000;
        cash_delta_microusd = pos 3000000000;
        inventory_before = pos 30;
        inventory_after = pos 0;
        mark_mid2 = 2000100;
        slippage_microusd = negsuc 149999;
      })
      ∷ [];
  positions = (4, pos 0) ∷ [];
  marks = (4, 2000100) ∷ [];
  max_abs_positions = [];
  gross_liquidation_cash_microusd = pos 3000000000;
  taker_fee_microusd = pos 90000;
  inventory_mark_to_market_microusd = pos 150000;
  terminal_liquidation_slippage_microusd = negsuc 149999;
  liquidation_count = 1;
  liquidation_quantity = pos 30;
}

abbrev prepared : AccountingLedger
prepared = record holding { prepared_terminal_plan = some plan; plans_prepared = 1 }

holding-prepared : prepare_terminal_accounting (sale ∷ []) (pos 3000) holding ≡ (ok plan, prepared)
unfolding prepare_terminal_accounting plan_terminal validate_fee_rate mark_trades
    validate_terminal_trade validate_symbol_id validate_mark_mid2 apply_mark_to_copies mark_change
    lookup insert checked_int64 ◌*ℤ◌ ◌-ℤ◌ ◌+ℤ◌ nonzero_symbols close_trades close_trade
    trade_cash_delta insert_item sorted_items marked_values reconcile validate_reconciliation
    checked_sum_from mark_relative_value marked_value trade_fee
holding-prepared = refl

held-IsDict : IsDict held
unfolding lookup
held-IsDict = (refl, tt)

prepare_commit_example : Settles holding plan (commit_terminal_accounting plan prepared)
prepare_commit_example = prepare_commit holding (sale ∷ []) (pos 3000) held-IsDict holding-prepared
