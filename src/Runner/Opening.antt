-- ===== src/Runner/Opening.antt =====
-- runner.py: the objects that `run_scenario` makes at the start of a day.
use itch_lab.Base.{◌≡◌, subst, ℕ, ◌+◌, List, [], ◌∷◌, arith, nat_eq}
use itch_lab.Base.Int.{ℤ}
use itch_lab.Base.Dict.{Dict, lookup, insert}
use itch_lab.Base.Result.{Result, ok, ◌>>=◌, >>=-eq-ok}
use itch_lab.StateMachine.{OrderStateMachine, make}
use itch_lab.StateMachine.Calls.Invariant as Machine
use itch_lab.StateMachine.Calls.Invariant.{initial-IsValid}
use itch_lab.QueueModel.Model.{VisibleQueueModel, make_model}
use itch_lab.QueueModel.Invariant.{IsWithin, initial_model-IsWithin}
use itch_lab.Accounting.{AccountingLedger, empty_ledger, make_ledger, validate_fee_rate}
use itch_lab.Accounting.FillOutcome.{IsBalancedLedger, empty_ledger-IsBalanced}
use itch_lab.Accounting.Limits.{IsLimited, empty_ledger-IsLimited}
use itch_lab.Runner.{EventRow, SnapshotRow, snapshot_by_key, SimulationSymbol, Setup, Day}
use itch_lab.Runner.Kept.{Covers, IsOpen}

pub record ExecutionScenario : Type 0 where
  pub submission_latency_ns : ℕ
  pub cancellation_latency_ns : ℕ
  pub maker_fee_microusd_per_share : ℤ
  pub taker_fee_microusd_per_share : ℤ

-- A dictionary with a value for each symbol.
unfoldable pub per_symbol :
    {V : Type 0} → (SimulationSymbol → V) → Dict ℕ SimulationSymbol → Dict ℕ V
per_symbol f [] = []
per_symbol f ((k, s) ∷ symbols) = (k, f s) ∷ per_symbol f symbols

-- `{symbol.symbol_id: symbol for symbol in day.symbols}`
unfoldable pub symbols_by_id :
    List SimulationSymbol → Dict ℕ SimulationSymbol → Dict ℕ SimulationSymbol
symbols_by_id [] d = d
symbols_by_id (s ∷ symbols) d = symbols_by_id symbols (insert s.symbol_id s d)

-- The loop that makes the strategies, whose constructors may raise.
unfoldable pub make_strategies :
    {S : Type 0} → (SimulationSymbol → Result S) → Dict ℕ SimulationSymbol → Result (Dict ℕ S)
make_strategies new_strategy [] = ok []
make_strategies new_strategy ((k, s) ∷ symbols) = do
  t ← new_strategy s
  d ← make_strategies new_strategy symbols
  ok ((k, t) ∷ d)

-- `SimulationDayInput`, as far as the runner reads it.
pub record SimulationDayInput : Type 0 where
  pub session_start_ns : ℕ
  pub session_end_ns : ℕ
  pub symbols : List SimulationSymbol
  pub events : List EventRow
  pub snapshots : List SnapshotRow

-- The dictionaries of a day's snapshots and symbols, with what the configuration states.
unfoldable pub setup_of : SimulationDayInput → ExecutionScenario → ℕ → Result Setup
setup_of day scenario decision_interval_ns = do
  snapshots ← snapshot_by_key day.snapshots []
  ok (record {
    session_start_ns = day.session_start_ns;
    session_end_ns = day.session_end_ns;
    decision_interval_ns = decision_interval_ns;
    taker_fee_microusd_per_share = scenario.taker_fee_microusd_per_share;
    symbols = symbols_by_id day.symbols [];
    snapshots = snapshots;
  })

module _ {S : Type 0} (new_strategy : SimulationSymbol → Result S) (setup : Setup) where
  -- The variables before the first event.
  abbrev pub fresh_day : VisibleQueueModel → AccountingLedger → Dict ℕ S → ℕ → ℕ → Day S
  fresh_day queue ledger strategies next_order_id next_fill_id = record {
    queue = queue;
    ledger = ledger;
    strategies = strategies;
    next_decision =
        per_symbol (λ _. setup.session_start_ns + setup.decision_interval_ns) setup.symbols;
    last_quotes = [];
    quote_timeline = per_symbol (λ _. []) setup.symbols;
    next_order_id = next_order_id;
    next_fill_id = next_fill_id;
    fills = [];
    equity = [];
  }

  -- The start of the loop's body for a day.
  unfoldable pub open_day : ExecutionScenario → ℕ → ℕ → ℕ → ℕ → Result (Day S)
  open_day scenario max_queue_anomalies inventory_limit next_order_id next_fill_id = do
    state ← make scenario.submission_latency_ns scenario.cancellation_latency_ns
    queue ← make_model state max_queue_anomalies
    ledger ← make_ledger scenario.maker_fee_microusd_per_share inventory_limit
    strategies ← make_strategies new_strategy setup.symbols
    ok (fresh_day queue ledger strategies next_order_id next_fill_id)

per_symbol-Covers :
    {V : Type 0} (f : SimulationSymbol → V) (symbols : Dict ℕ SimulationSymbol)
    → Covers symbols (per_symbol f symbols)
unfolding lookup per_symbol
per_symbol-Covers f [] k h = h
per_symbol-Covers f ((j, s) ∷ symbols) k h = ground (arith, per_symbol-Covers f symbols k)

make_strategies-Covers :
    {S : Type 0} (new_strategy : SimulationSymbol → Result S) (symbols : Dict ℕ SimulationSymbol)
    (d : Dict ℕ S)
    → make_strategies new_strategy symbols ≡ ok d
    → Covers symbols d
unfolding lookup make_strategies
make_strategies-Covers new_strategy [] d h k i = absurd (ground (arith, i))
make_strategies-Covers new_strategy ((j, s) ∷ symbols) d h k i =
    let (t, et, h1) = >>=-eq-ok (new_strategy s) _ h in
    let (rest, er, h2) = >>=-eq-ok (make_strategies new_strategy symbols) _ h1 in
    ground (arith, h2, make_strategies-Covers new_strategy symbols rest er k)

make_ok : (a b : ℕ) (m : OrderStateMachine) → make a b ≡ ok m → Machine.IsValid m
unfolding make
make_ok a b m h = subst Machine.IsValid (ground (arith, h)) (initial-IsValid a b)

make_model_ok :
    (m : OrderStateMachine) (n : ℕ) (q : VisibleQueueModel)
    → Machine.IsValid m
    → make_model m n ≡ ok q
    → IsWithin q
unfolding make_model
make_model_ok m n q v h = subst IsWithin (ground (arith, h)) (initial_model-IsWithin m n v)

make_ledger_ok :
    (rate : ℤ) (limit : ℕ) (l : AccountingLedger)
    → make_ledger rate limit ≡ ok l
    → empty_ledger rate limit ≡ l
unfolding make_ledger validate_fee_rate
make_ledger_ok rate limit l h = ground (arith, h)

module _ {S : Type 0} (new_strategy : SimulationSymbol → Result S) (setup : Setup)
    (scenario : ExecutionScenario) (anomalies limit order_id fill_id : ℕ) where
  -- A day that was opened satisfies what the loop keeps.
  pub open_day-IsOpen :
      (d : Day S)
      → open_day new_strategy setup scenario anomalies limit order_id fill_id ≡ ok d
      → IsOpen setup d
  unfolding open_day
  open_day-IsOpen d h =
      let (m, em, h1) =
        >>=-eq-ok (make scenario.submission_latency_ns scenario.cancellation_latency_ns) _ h in
      let (q, eq, h2) = >>=-eq-ok (make_model m anomalies) _ h1 in
      let (l, el, h3) = >>=-eq-ok (make_ledger scenario.maker_fee_microusd_per_share limit) _ h2 in
      let (ts, et, h4) = >>=-eq-ok (make_strategies new_strategy setup.symbols) _ h3 in
      let w = make_model_ok m anomalies q (make_ok _ _ m em) eq in
      let e = make_ledger_ok _ limit l el in
      let opened : IsOpen setup (fresh_day new_strategy setup q l ts order_id fill_id) = record {
        queue = w;
        ledger =
            subst IsBalancedLedger e
              (empty_ledger-IsBalanced scenario.maker_fee_microusd_per_share limit);
        limited =
            subst IsLimited e (empty_ledger-IsLimited scenario.maker_fee_microusd_per_share limit);
        strategies = make_strategies-Covers new_strategy setup.symbols ts et;
        decisions = per_symbol-Covers _ setup.symbols;
        timelines = per_symbol-Covers _ setup.symbols;
      } in
      let same : fresh_day new_strategy setup q l ts order_id fill_id ≡ d = ground (arith, h4) in
      subst (IsOpen setup) same opened
