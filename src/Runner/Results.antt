-- ===== src/Runner/Results.antt =====
-- runner.py: `_day_metrics`, the two kinds of metrics of a day.
use itch_lab.Base.{ℕ, ◌*◌, List, ◌++◌, map}
use itch_lab.Base.Int.{ℤ, pos}
use itch_lab.Base.Action.{Action, ◌>>=◌, pure, lift, gets}
use itch_lab.Accounting.{AccountingLedger, LiquidationAccounting}
use itch_lab.Metrics.{AccountingMetrics, TemporalMetrics, temporal_metrics, ledger_metrics}
use itch_lab.Runner.{FillRow, EquityRow}

-- price4 * quantity * 100, of the fills and then of the liquidations
abbrev pub trade_notionals : List FillRow → List LiquidationAccounting → List ℤ
trade_notionals fills liquidations =
    map (λ (f : FillRow). pos (f.price4 * f.quantity * 100)) fills
    ++ map (λ (l : LiquidationAccounting). pos (l.price4 * l.quantity * 100)) liquidations

module _ {Coverage : Type 0} (no_coverage : Coverage) (quotient : ℕ → ℕ → Coverage) where
  unfoldable pub day_metrics :
      List FillRow
      → List EquityRow
      → Action AccountingLedger (AccountingMetrics × TemporalMetrics Coverage)
  day_metrics fills equity = do
    accounting ← ledger_metrics
    liquidations ← gets (λ s. s.liquidations)
    temporal ← lift (
        temporal_metrics no_coverage quotient
          (map (λ (r : EquityRow). r.marked_pnl_microusd) equity)
          (trade_notionals fills liquidations)
          (map (λ (f : FillRow). f.adverse_selection_100ms_microusd) fills))
    pure (accounting, temporal)
