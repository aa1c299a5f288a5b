-- ===== src/Accounting/Terminal.antt =====
-- accounting.py: preparing and committing the terminal liquidation. `Liquidation` has the checks and
-- the loops over the trades.
use itch_lab.Base.{◌+◌, Bool, true, false, ◌||◌, not, Option, none, some, List, ◌++◌, length, eqb}
use itch_lab.Base.Int.{ℤ}
use itch_lab.Base.Action.{Action, ◌>>=◌, ◌>>◌, pure, lift, raise_if, gets, modify}
use itch_lab.Errors.{ErrorCode}
use itch_lab.Order.{fail}
use itch_lab.Accounting.{
  TerminalTrade, LiquidationAccounting, PreparedTerminalAccounting, AccountingLedger,
}
use itch_lab.Accounting.Liquidation.{plan_terminal}

unfoldable pub prepare_terminal_accounting :
    List TerminalTrade → ℤ → Action AccountingLedger PreparedTerminalAccounting
prepare_terminal_accounting trades taker_fee_microusd_per_share = do
  s ← gets (λ s. s)
  raise_if s.settled (fail ErrorCode.simulation_anomaly none none)
  plan ← lift (plan_terminal s trades taker_fee_microusd_per_share)
  modify
      (λ s. record s { prepared_terminal_plan = some plan; plans_prepared = s.plans_prepared + 1 })
  pure plan

-- `plan is self._prepared_terminal_plan`
abbrev pub is_prepared : PreparedTerminalAccounting → Option PreparedTerminalAccounting → Bool
is_prepared plan none = false
is_prepared plan (some p) = eqb p.identity plan.identity

-- The ledger after the plan.
abbrev pub settled_by : PreparedTerminalAccounting → AccountingLedger → AccountingLedger
settled_by plan s = record s {
  positions = plan.positions;
  marks = plan.marks;
  max_abs_positions = plan.max_abs_positions;
  totals = record (s.totals) {
    gross_liquidation_cash = plan.gross_liquidation_cash_microusd;
    taker_fees = plan.taker_fee_microusd;
    inventory_mark_to_market = plan.inventory_mark_to_market_microusd;
    terminal_liquidation_slippage = plan.terminal_liquidation_slippage_microusd;
  };
  liquidation_quantity = plan.liquidation_quantity;
  liquidations = s.liquidations ++ plan.records;
  settled = true;
  prepared_terminal_plan = none;
  revision = s.revision + 1;
}

unfoldable pub commit_terminal_accounting :
    PreparedTerminalAccounting → Action AccountingLedger (List LiquidationAccounting)
commit_terminal_accounting plan = do
  s ← gets (λ s. s)
  raise_if (not (is_prepared plan s.prepared_terminal_plan) || not (eqb plan.revision s.revision))
      (fail ErrorCode.simulation_anomaly none none)
  raise_if s.settled (fail ErrorCode.simulation_anomaly none none)
  raise_if (not (eqb plan.liquidation_count (length s.liquidations + length plan.records)))
      (fail ErrorCode.invariant none none)
  modify (settled_by plan)
  pure plan.records
