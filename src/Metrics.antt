-- ===== src/Metrics.antt =====
-- python/src/itchlab_research/simulation/metrics.py: the metrics of a simulated day. The coverage is
-- a floating-point quotient: its type and the division are parameters.
pub mod Drawdown
pub mod Temporal
pub mod Summary
mod Tests
use itch_lab.Base.{
  ℕ, Bool, true, not, ◌||◌, Option, none, some, List, [], ◌∷◌, map, length, eqb, if◌then◌else◌,
}
use itch_lab.Base.Int.{ℤ, pos, ◌+ℤ◌, ◌-ℤ◌, neg, eqb_ℤ, leb_ℤ, ltb_ℤ}
use itch_lab.Base.Result.{Result, ok, err, ◌>>=◌, ◌>>◌, raise_if}
use itch_lab.Base.Action.{Action}
use itch_lab.Errors.{ErrorCode}
use itch_lab.Order.{fail}
use itch_lab.Accounting.{SymbolAccounting, AccountingLedger, checked_int64, cost_error}
use itch_lab.Accounting.Snapshot.{AccountingSnapshot, snapshot}

pub record AccountingMetrics : Type 0 where
  pub passive_fill_count : ℕ
  pub passive_fill_quantity : ℤ
  pub liquidation_count : ℕ
  pub liquidation_quantity : ℤ
  pub gross_cash_microusd : ℤ
  pub maker_fee_microusd : ℤ
  pub taker_fee_microusd : ℤ
  pub signed_fee_microusd : ℤ
  pub fee_contribution_microusd : ℤ
  pub cash_microusd : ℤ
  pub ending_inventory_by_symbol : List (ℕ × ℤ)
  pub max_abs_inventory_by_symbol : List (ℕ × ℕ)
  pub marked_inventory_value_microusd : ℤ
  pub passive_spread_capture_microusd : ℤ
  pub inventory_mark_to_market_microusd : ℤ
  pub terminal_liquidation_slippage_microusd : ℤ
  pub marked_pnl_microusd : ℤ
  pub reconciled : Bool
  pub settled : Bool

pub record TemporalMetrics (Coverage : Type 0) : Type 0 where
  pub max_drawdown_microusd : ℤ
  pub turnover_microusd : ℤ
  pub adverse_selection_100ms_microusd : Option ℤ
  pub adverse_selection_observation_count : ℕ
  pub adverse_selection_eligible_fill_count : ℕ
  pub adverse_selection_coverage : Coverage

-- `_checked_add`
unfoldable pub checked_add : ℤ → ℤ → Result ℤ
checked_add left right = checked_int64 (left +ℤ right)

-- `max(left, right)`
abbrev pub max_ℤ : ℤ → ℤ → ℤ
max_ℤ left right = if leb_ℤ right left then left else right

-- The loop over the equity curve, from the peak and the drawdown so far.
unfoldable pub drawdown_from : ℤ → ℤ → List ℤ → Result ℤ
drawdown_from peak maximum_drawdown [] = ok maximum_drawdown
drawdown_from peak maximum_drawdown (value ∷ equity) = do
  checked ← checked_int64 value
  fall ← checked_int64 (max_ℤ peak checked -ℤ checked)
  drawdown_from (max_ℤ peak checked) (max_ℤ maximum_drawdown fall) equity

-- The loop over the notionals of the trades.
unfoldable pub turnover_from : ℤ → List ℤ → Result ℤ
turnover_from turnover [] = ok turnover
turnover_from turnover (value ∷ notionals) = do
  raise_if (ltb_ℤ value (pos 0)) cost_error
  turnover' ← checked_add turnover value
  turnover_from turnover' notionals

-- The values that are not `None`.
unfoldable pub observed : List (Option ℤ) → List ℤ
observed [] = []
observed (none ∷ adverse) = observed adverse
observed (some value ∷ adverse) = value ∷ observed adverse

-- The loop over the observed values.
unfoldable pub adverse_from : ℤ → List ℤ → Result ℤ
adverse_from total [] = ok total
adverse_from total (value ∷ values) = do
  total' ← checked_add total value
  adverse_from total' values

-- `None` where nothing was observed.
unfoldable pub adverse_total : List ℤ → Result (Option ℤ)
adverse_total [] = ok none
adverse_total (value ∷ values) = do total ← adverse_from (pos 0) (value ∷ values); ok (some total)

module _ {Coverage : Type 0} (no_coverage : Coverage) (quotient : ℕ → ℕ → Coverage) where
  unfoldable pub temporal_metrics :
      List ℤ → List ℤ → List (Option ℤ) → Result (TemporalMetrics Coverage)
  temporal_metrics equity notionals adverse = do
    maximum_drawdown ← drawdown_from (pos 0) (pos 0) equity
    turnover ← turnover_from (pos 0) notionals
    total ← adverse_total (observed adverse)
    ok (record {
      max_drawdown_microusd = maximum_drawdown;
      turnover_microusd = turnover;
      adverse_selection_100ms_microusd = total;
      adverse_selection_observation_count = length (observed adverse);
      adverse_selection_eligible_fill_count = length adverse;
      adverse_selection_coverage =
          if eqb (length adverse) 0
          then no_coverage
          else quotient (length (observed adverse)) (length adverse);
    })

-- What `accounting_metrics` returns for a snapshot, with the sums that it computed.
abbrev pub metrics_of : AccountingSnapshot → ℤ → ℤ → AccountingMetrics
metrics_of s gross_cash fee_contribution = record {
  passive_fill_count = s.passive_fill_count;
  passive_fill_quantity = s.passive_fill_quantity;
  liquidation_count = s.liquidation_count;
  liquidation_quantity = s.liquidation_quantity;
  gross_cash_microusd = gross_cash;
  maker_fee_microusd = s.totals.maker_fees;
  taker_fee_microusd = s.totals.taker_fees;
  signed_fee_microusd = s.sums.signed_fees;
  fee_contribution_microusd = fee_contribution;
  cash_microusd = s.sums.cash;
  ending_inventory_by_symbol = map (λ (r : SymbolAccounting). (r.symbol_id, r.inventory)) s.symbols;
  max_abs_inventory_by_symbol =
      map (λ (r : SymbolAccounting). (r.symbol_id, r.max_abs_inventory)) s.symbols;
  marked_inventory_value_microusd = s.sums.marked_inventory_value;
  passive_spread_capture_microusd = s.totals.passive_spread_capture;
  inventory_mark_to_market_microusd = s.totals.inventory_mark_to_market;
  terminal_liquidation_slippage_microusd = s.totals.terminal_liquidation_slippage;
  marked_pnl_microusd = s.sums.marked_pnl;
  reconciled = true;
  settled = s.settled;
}

-- The loop over the components of the profit.
unfoldable pub decomposition_from : ℤ → List ℤ → Result ℤ
decomposition_from decomposition [] = ok decomposition
decomposition_from decomposition (component ∷ components) = do
  decomposition' ← checked_add decomposition component
  decomposition_from decomposition' components

-- `accounting_metrics`, from a snapshot
unfoldable pub snapshot_metrics : AccountingSnapshot → Result AccountingMetrics
snapshot_metrics s = do
  gross_cash ← checked_int64 (s.totals.gross_passive_cash +ℤ s.totals.gross_liquidation_cash)
  fee_contribution ← checked_int64 (neg s.sums.signed_fees)
  decomposition ← decomposition_from (pos 0) (
      s.totals.passive_spread_capture ∷ s.totals.inventory_mark_to_market
      ∷ s.totals.terminal_liquidation_slippage ∷ fee_contribution ∷ [])
  cash_reconciliation ← checked_int64 (gross_cash -ℤ s.sums.signed_fees)
  raise_if
      (not (eqb_ℤ cash_reconciliation s.sums.cash) || not (eqb_ℤ decomposition s.sums.marked_pnl))
      (fail ErrorCode.invariant none none)
  ok (metrics_of s gross_cash fee_contribution)

-- `accounting_metrics`, from a ledger
unfoldable pub ledger_metrics : Action AccountingLedger AccountingMetrics
ledger_metrics s =
    let (r, s') = snapshot s in elim r [ err e ↦ (err e, s') | ok a ↦ (snapshot_metrics a, s') ]
