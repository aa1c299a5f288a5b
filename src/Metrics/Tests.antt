-- ===== src/Metrics/Tests.antt =====
-- Runs of metrics.py on a day of five equity points, two trades and three fills.
use itch_lab.Base.{◌≡◌, refl, ◌⊎◌, ℕ, Option, none, some, List, [], ◌∷◌}
use itch_lab.Base.Int.{ℤ, pos, negsuc, ◌+ℤ◌, ◌-ℤ◌}
use itch_lab.Base.Result.{ok, err}
use itch_lab.Errors.{SimulationError}
use itch_lab.Accounting.{AccountingLedger, empty_ledger, checked_int64}
use itch_lab.Accounting.Snapshot.{snapshot}
use itch_lab.Metrics.{
  AccountingMetrics, TemporalMetrics, checked_add, drawdown_from, turnover_from, observed,
  adverse_from, adverse_total, temporal_metrics, ledger_metrics,
}
use itch_lab.Metrics.Temporal.{IsTemporal, temporal_metrics-IsTemporal}
use itch_lab.Accounting.Session.{Call, run, session-IsBalanced}
use itch_lab.Accounting.FillOutcome.{empty_ledger-IsBalanced}
use itch_lab.Accounting.Reconcile.{Quiet}
use itch_lab.Metrics.Summary.{ledger_metrics-Quiet, IsReconciled, ledger_metrics-snapshot}

abbrev equity : List ℤ
equity = pos 3 ∷ pos 9 ∷ negsuc 1 ∷ pos 4 ∷ pos 8 ∷ []

abbrev notionals : List ℤ
notionals = pos 100 ∷ pos 50 ∷ []

abbrev adverse : List (Option ℤ)
adverse = some (pos 7) ∷ none ∷ some (negsuc 9) ∷ []

abbrev metrics : TemporalMetrics (ℕ × ℕ)
metrics = record {
  max_drawdown_microusd = pos 11;
  turnover_microusd = pos 150;
  adverse_selection_100ms_microusd = some (negsuc 2);
  adverse_selection_observation_count = 2;
  adverse_selection_eligible_fill_count = 3;
  adverse_selection_coverage = (2, 3);
}

temporal : temporal_metrics (0, 1) (λ m n. (m, n)) equity notionals adverse ≡ ok metrics
unfolding temporal_metrics drawdown_from turnover_from adverse_total adverse_from observed
    checked_add checked_int64 ◌+ℤ◌ ◌-ℤ◌
temporal = refl

temporal_metrics_example : IsTemporal (0, 1) (λ m n. (m, n)) equity notionals adverse metrics
temporal_metrics_example =
    temporal_metrics-IsTemporal (0, 1) (λ m n. (m, n)) equity notionals adverse metrics temporal

abbrev ledger : AccountingLedger
ledger = empty_ledger (negsuc 1999) 1000

ledger_metrics_example :
    ((e : SimulationError) × ((snapshot ledger).0 ≡ err e) × ((ledger_metrics ledger).0 ≡ err e))
    ⊎ ((m : AccountingMetrics) × ((ledger_metrics ledger).0 ≡ ok m) × IsReconciled ledger.totals m)
ledger_metrics_example = ledger_metrics-snapshot ledger

-- A ledger that has marked two symbols.
abbrev calls : List Call
calls = Call.marks 4 1999900 ∷ Call.marks 9 300100 ∷ Call.marks 4 2000300 ∷ []

ledger_metrics-Quiet_example :
    Quiet (snapshot (run calls ledger)).0 × Quiet (ledger_metrics (run calls ledger)).0
ledger_metrics-Quiet_example =
    ledger_metrics-Quiet (run calls ledger)
      (session-IsBalanced calls ledger (empty_ledger-IsBalanced (negsuc 1999) 1000))
