-- ===== src/Runner/Whole.antt =====
-- runner.py: a whole day of `run_scenario`, from its events to its metrics.
use itch_lab.Base.{ℕ, List}
use itch_lab.QueueModel.Method.{Method, ◌>>=◌, ◌>>◌, pure, gets, modify, or_key_error}
use itch_lab.Metrics.{AccountingMetrics, TemporalMetrics}
use itch_lab.Liquidation.{TerminalSettlement}
use itch_lab.Runner.{EventRow, FillRow, Strategy, Setup, Day, on_ledger}
use itch_lab.Runner.Fills.{apply_markouts}
use itch_lab.Runner.Loop.{settle_events}
use itch_lab.Runner.Results.{day_metrics}

module _ {Coverage : Type 0} (no_coverage : Coverage) (quotient : ℕ → ℕ → Coverage) {S : Type 0}
    (strategy : Strategy S) (setup : Setup) where
  abbrev pub with_fills : List FillRow → Day S → Day S
  with_fills fills d = record d { fills = fills }

  -- The markouts of the fills, and the day's metrics.
  unfoldable pub finish_day :
      TerminalSettlement
      → Method (Day S) (TerminalSettlement × AccountingMetrics × TemporalMetrics Coverage)
  finish_day settlement = do
    marked ← gets (λ d. apply_markouts d.fills d.quote_timeline)
    fills ← or_key_error marked
    modify (with_fills fills)
    equity ← gets (λ d. d.equity)
    (accounting, temporal) ← on_ledger (day_metrics no_coverage quotient fills equity)
    pure (settlement, accounting, temporal)

  -- The events and the settlement, and the end of the day.
  unfoldable pub run_day :
      List EventRow
      → Method (Day S) (TerminalSettlement × AccountingMetrics × TemporalMetrics Coverage)
  run_day events = do settlement ← settle_events strategy setup events; finish_day settlement
