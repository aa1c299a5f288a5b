-- ===== src/Runner/Ending.antt =====
-- runner.py: how a whole day ends, its markouts and metrics included.
use itch_lab.Base.{◌≡◌, ℕ, none, List, All, arith, inl, inr, Option-cases}
use itch_lab.Base.Result.{Result, ok, err}
use itch_lab.Errors.{SimulationError}
use itch_lab.Accounting.{AccountingLedger}
use itch_lab.Accounting.Session.{snapshot_state}
use itch_lab.Metrics.{AccountingMetrics, TemporalMetrics, ledger_metrics}
use itch_lab.Liquidation.{TerminalSettlement}
use itch_lab.QueueModel.Method.{
  Failure, Ran, Method, returns, raises, type_errors, ◌>>=◌, gets, modify, or_key_error, pure,
  at_part, ran,
}
use itch_lab.Runner.{
  EventRow, IsKeyed, FillRow, EquityRow, SimulationSymbol, Strategy, Setup, Day, put_ledger,
}
use itch_lab.Runner.Fills.{apply_markouts}
use itch_lab.Runner.Loop.{settle_events}
use itch_lab.Runner.Results.{day_metrics}
use itch_lab.Runner.Opening.{ExecutionScenario, open_day}
use itch_lab.Runner.Session.{IsSafe, IsClosedDay, Closes, IsFlat-IsLimited, open_day-Closes}
use itch_lab.Runner.Whole.{with_fills, finish_day, run_day}

-- A day that ends: it returns or lacks the timeline of a fill when it is closed, and leaves a safe
-- state if it raises.
pub data DayEnds {S A : Type 0} : Ran A × Day S → Type 0 where
  closed : {a : A} {d : Day S} → IsClosedDay d → DayEnds (Ran.returned a, d)
  stopped : {e : SimulationError} {d : Day S} → IsSafe d → DayEnds (Ran.raised e, d)
  mistyped : {d : Day S} → IsSafe d → DayEnds (Ran.failed Failure.type_error, d)
  unmarked :
      {d : Day S}
      → IsClosedDay d
      → apply_markouts d.fills d.quote_timeline ≡ none
      → DayEnds (Ran.failed Failure.key_error, d)

IsClosedDay-IsSafe : {S : Type 0} (d : Day S) → IsClosedDay d → IsSafe d
IsClosedDay-IsSafe d c = record { queue = c.queue; limited = IsFlat-IsLimited d.ledger c.settled.3 }

module _ {S B : Type 0} (strategy : Strategy S) (setup : Setup) where
  DayEnds-then :
      (f : TerminalSettlement → Method (Day S) B) (r : Ran TerminalSettlement × Day S)
      → Closes strategy setup r
      → ((t : TerminalSettlement) (d : Day S) → IsClosedDay d → DayEnds (f t d))
      → DayEnds {S = S} {A = B} (elim r.0 [
        | Ran.returned a ↦ f a r.1
        | Ran.raised e ↦ (Ran.raised e, r.1)
        | Ran.failed x ↦ (Ran.failed x, r.1)
      ])
  DayEnds-then f _ (returns c) k = k _ _ c
  DayEnds-then f _ (raises s) k = stopped s
  DayEnds-then f _ (type_errors s) k = mistyped s

module _ {Coverage : Type 0} (no_coverage : Coverage) (quotient : ℕ → ℕ → Coverage) where
  day_metrics_state :
      (fills : List FillRow) (equity : List EquityRow) (l : AccountingLedger)
      → (day_metrics no_coverage quotient fills equity l).1 ≡ l
  unfolding day_metrics ledger_metrics
  day_metrics_state fills equity l = ground (arith, snapshot_state l)

  module _ {S : Type 0} (strategy : Strategy S) (setup : Setup) where
    -- The ledger's metrics leave the ledger as it was, so a closed day stays closed.
    IsClosedDay-same :
        (l : AccountingLedger) (d : Day S)
        → l ≡ d.ledger
        → IsClosedDay d
        → IsClosedDay (put_ledger l d)
    IsClosedDay-same l d e c = record { queue = c.queue; settled = rw e c.settled }

    measured-DayEnds :
        (t : TerminalSettlement) (d : Day S)
        (r : Result (AccountingMetrics × TemporalMetrics Coverage)) (l : AccountingLedger)
        → l ≡ d.ledger
        → IsClosedDay d
        → DayEnds {S = S} {A = TerminalSettlement × AccountingMetrics × TemporalMetrics Coverage}
            (elim (ran r) [
              | Ran.returned a ↦ (Ran.returned (t, a.0, a.1), put_ledger l d)
              | Ran.raised e ↦ (Ran.raised e, put_ledger l d)
              | Ran.failed x ↦ (Ran.failed x, put_ledger l d)
            ])
    measured-DayEnds t d (ok a) l e c = closed (IsClosedDay-same l d e c)
    measured-DayEnds t d (err x) l e c = stopped (IsClosedDay-IsSafe _ (IsClosedDay-same l d e c))

    marked-IsClosedDay :
        (fills : List FillRow) (d : Day S)
        → IsClosedDay d
        → IsClosedDay (with_fills no_coverage quotient strategy setup fills d)
    marked-IsClosedDay fills d c = record { queue = c.queue; settled = c.settled }

    finish_day-DayEnds :
        (t : TerminalSettlement) (d : Day S)
        → IsClosedDay d
        → DayEnds (finish_day no_coverage quotient strategy setup t d)
    unfolding finish_day ◌>>=◌ gets modify or_key_error pure at_part
    finish_day-DayEnds t d c = elim (Option-cases (apply_markouts d.fills d.quote_timeline)) [
      | inl n ↦ rw n (unmarked c n)
      | inr (fills, f) ↦ rw f (
          let l = day_metrics no_coverage quotient fills d.equity d.ledger in
          measured-DayEnds t (with_fills no_coverage quotient strategy setup fills d) l.0 l.1
            (day_metrics_state fills d.equity d.ledger) (marked-IsClosedDay fills d c))
    ]

    -- Of a day that was opened for any scenario, whatever the snapshots and the strategies, and
    -- whatever the events, if their rows have the keys that the runner reads: the events and the
    -- settlement never fail with a KeyError. They raise and leave a sound queue model and every
    -- inventory within the limit, or the day closes: the queue model is sound, no simulated order is
    -- open, the ledger is settled and no position is held. The whole day, with its markouts and its
    -- metrics, ends in the same way, or the day is closed and the markouts fail with a KeyError, as
    -- a fill's symbol has no timeline.
    pub open_day-DayEnds :
        (new_strategy : SimulationSymbol → Result S) (scenario : ExecutionScenario)
        (anomalies limit order_id fill_id : ℕ) (events : List EventRow) (d : Day S)
        → All IsKeyed events
        → open_day new_strategy setup scenario anomalies limit order_id fill_id ≡ ok d
        → Closes strategy setup (settle_events strategy setup events d)
          × DayEnds (run_day no_coverage quotient strategy setup events d)
    unfolding run_day ◌>>=◌
    open_day-DayEnds new_strategy scenario anomalies limit order_id fill_id events d keyed h =
        let c =
          open_day-Closes strategy setup new_strategy scenario anomalies limit order_id fill_id
            events d keyed h in
        (
          c,
          DayEnds-then strategy setup (finish_day no_coverage quotient strategy setup) _ c
              finish_day-DayEnds,
        )
