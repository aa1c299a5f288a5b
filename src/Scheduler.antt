-- ===== src/Scheduler.antt =====
-- python/src/itchlab_research/simulation/scheduler.py: the latency scheduler.
-- `heapq` keeps entries (effective, sequence, action), whose first two parts are fields of the
-- action; the model is the list of the actions in the order of those two, which is the order in
-- which `heappop` gives them and `sorted` lists them.
pub mod Order
pub mod Cases
pub mod Delivery
pub mod Invariant
mod Tests
use itch_lab.Base.{
  ℕ, ◌+◌, Bool, true, false, ◌&&◌, ◌||◌, not, Option, none, some, List, [], ◌∷◌, ltb, leb, eqb,
  is_some, if◌then◌else◌,
}
use itch_lab.Base.Result.{Result, ok}
use itch_lab.Base.Action.{Action, ◌>>=◌, ◌>>◌, pure, lift, raise_if, gets, modify}
use itch_lab.Errors.{ErrorCode, SimulationError}
use itch_lab.Order.{fail, valid_int, max_uint64, max_timestamp_ns, max_latency_ns}

pub data ScheduledActionKind : Type 0 where
  activate cancel : ScheduledActionKind

pub record ScheduledAction : Type 0 where
  pub effective_timestamp_ns : ℕ
  pub sequence : ℕ
  pub simulated_order_id : ℕ
  pub kind : ScheduledActionKind
  pub requested_timestamp_ns : ℕ
  pub request_message_index : ℕ

pub record LatencyScheduler : Type 0 where
  pub heap : List ScheduledAction
  pub next_sequence : ℕ
  pub last_market_timestamp_ns : Option ℕ
  pub last_market_message_index : Option ℕ
  pub completed_market_timestamp_ns : Option ℕ

-- `LatencyScheduler()`
abbrev pub init : LatencyScheduler
init = record {
  heap = [];
  next_sequence = 0;
  last_market_timestamp_ns = none;
  last_market_message_index = none;
  completed_market_timestamp_ns = none;
}

-- The order of the entries' tuples.
abbrev pub earlier : ScheduledAction → ScheduledAction → Bool
earlier a b =
    ltb a.effective_timestamp_ns b.effective_timestamp_ns
    || eqb a.effective_timestamp_ns b.effective_timestamp_ns && ltb a.sequence b.sequence

-- `heapq.heappush`
unfoldable pub push : ScheduledAction → List ScheduledAction → List ScheduledAction
push a [] = a ∷ []
push a (b ∷ h) = if earlier a b then a ∷ b ∷ h else b ∷ push a h

unfoldable pub effective_timestamp : ℕ → ℕ → Result ℕ
effective_timestamp requested_timestamp_ns latency_ns =
    if not (valid_int requested_timestamp_ns 0 max_timestamp_ns)
    then Result.err (fail ErrorCode.timestamp none none)
    else if not (valid_int latency_ns 0 max_latency_ns)
    then Result.err (fail ErrorCode.latency none none)
    else if ltb max_timestamp_ns (requested_timestamp_ns + latency_ns)
    then Result.err (fail ErrorCode.latency none none)
    else ok (requested_timestamp_ns + latency_ns)

-- `bound is not None and value <= bound`
abbrev pub at_or_before : ℕ → Option ℕ → Bool
at_or_before value none = false
at_or_before value (some bound) = leb value bound

-- `bound is not None and value < bound`
abbrev pub before : ℕ → Option ℕ → Bool
before value none = false
before value (some bound) = ltb value bound

-- `bound is not None and value > bound`
abbrev pub after : ℕ → Option ℕ → Bool
after value none = false
after value (some bound) = ltb bound value

-- The action that `schedule` makes.
abbrev pub make_action : ScheduledActionKind → ℕ → ℕ → ℕ → ℕ → LatencyScheduler → ScheduledAction
make_action kind id requested index effective s = record {
  effective_timestamp_ns = effective;
  sequence = s.next_sequence;
  simulated_order_id = id;
  kind = kind;
  requested_timestamp_ns = requested;
  request_message_index = index;
}

-- The state after a push of the action.
abbrev pub scheduled : ScheduledAction → LatencyScheduler → LatencyScheduler
scheduled a s = record s { heap = push a s.heap; next_sequence = s.next_sequence + 1 }

unfoldable pub schedule :
    ScheduledActionKind → ℕ → ℕ → ℕ → ℕ → Action LatencyScheduler ScheduledAction
schedule kind simulated_order_id requested_timestamp_ns request_message_index latency_ns = do
  raise_if (not (valid_int simulated_order_id 0 max_uint64))
      (fail ErrorCode.simulation_anomaly none none)
  raise_if (not (valid_int request_message_index 0 max_uint64))
      (fail ErrorCode.simulation_anomaly (some simulated_order_id) none)
  effective ← lift (effective_timestamp requested_timestamp_ns latency_ns)
  s ← gets (λ s. s)
  raise_if (at_or_before requested_timestamp_ns s.completed_market_timestamp_ns)
      (fail ErrorCode.timestamp (some simulated_order_id) (some request_message_index))
  raise_if (ltb max_uint64 s.next_sequence) (fail ErrorCode.simulation_anomaly none none)
  modify (λ s.
      scheduled
        (make_action kind simulated_order_id requested_timestamp_ns request_message_index effective
          s)
        s)
  pure
      (make_action kind simulated_order_id requested_timestamp_ns request_message_index effective s)

unfoldable pub validate_market_key : ℕ → ℕ → LatencyScheduler → Result (Unit {0})
validate_market_key timestamp_ns message_index s =
    if not (valid_int timestamp_ns 0 max_timestamp_ns)
    then Result.err (fail ErrorCode.timestamp none (some message_index))
    else if not (valid_int message_index 0 max_uint64)
    then Result.err (fail ErrorCode.simulation_anomaly none none)
    else if before timestamp_ns s.last_market_timestamp_ns
    then Result.err (fail ErrorCode.timestamp none (some message_index))
    else if at_or_before message_index s.last_market_message_index
    then Result.err (fail ErrorCode.simulation_anomaly none (some message_index))
    else ok tt

-- The test that ends the loop of `_pop_due`.
abbrev pub not_due : ℕ → Bool → ScheduledAction → Bool
not_due timestamp_ns inclusive a =
    ltb timestamp_ns a.effective_timestamp_ns
    || eqb a.effective_timestamp_ns timestamp_ns && not inclusive

-- `_pop_due`: what it returns, and the heap that it leaves.
unfoldable pub pop_due :
    ℕ → Bool → List ScheduledAction → List ScheduledAction × List ScheduledAction
pop_due timestamp_ns inclusive [] = ([], [])
pop_due timestamp_ns inclusive (a ∷ h) =
    let rest = pop_due timestamp_ns inclusive h in
    if not_due timestamp_ns inclusive a then ([], a ∷ h) else (a ∷ rest.0, rest.1)

-- The new value of `_completed_market_timestamp_ns` when a message of a later time opens.
abbrev pub completed_before : ℕ → LatencyScheduler → Option ℕ
completed_before timestamp_ns s =
    if after timestamp_ns s.last_market_timestamp_ns
    then s.last_market_timestamp_ns
    else s.completed_market_timestamp_ns

-- The state in which a market message is open.
abbrev pub opened : ℕ → ℕ → LatencyScheduler → LatencyScheduler
opened timestamp_ns message_index s = record s {
  heap = (pop_due timestamp_ns false s.heap).1;
  last_market_timestamp_ns = some timestamp_ns;
  last_market_message_index = some message_index;
  completed_market_timestamp_ns = completed_before timestamp_ns s;
}

unfoldable pub actions_before_market : ℕ → ℕ → Action LatencyScheduler (List ScheduledAction)
actions_before_market timestamp_ns message_index = do
  s ← gets (λ s. s)
  lift (validate_market_key timestamp_ns message_index s)
  raise_if (at_or_before timestamp_ns s.completed_market_timestamp_ns)
      (fail ErrorCode.timestamp none (some message_index))
  modify (opened timestamp_ns message_index)
  pure (pop_due timestamp_ns false s.heap).0

-- `last != timestamp_ns`, of an optional number.
abbrev pub is_at : ℕ → Option ℕ → Bool
is_at value none = false
is_at value (some bound) = eqb bound value

-- The state in which the timestamp is complete.
abbrev pub completed : ℕ → LatencyScheduler → LatencyScheduler
completed timestamp_ns s = record s {
  heap = (pop_due timestamp_ns true s.heap).1;
  completed_market_timestamp_ns = some timestamp_ns;
}

unfoldable pub actions_after_market_timestamp : ℕ → Action LatencyScheduler (List ScheduledAction)
actions_after_market_timestamp timestamp_ns = do
  s ← gets (λ s. s)
  raise_if (not (valid_int timestamp_ns 0 max_timestamp_ns)) (fail ErrorCode.timestamp none none)
  raise_if (not (is_at timestamp_ns s.last_market_timestamp_ns))
      (fail ErrorCode.timestamp none none)
  raise_if (at_or_before timestamp_ns s.completed_market_timestamp_ns)
      (fail ErrorCode.timestamp none none)
  modify (completed timestamp_ns)
  pure (pop_due timestamp_ns true s.heap).0

-- `current_market_key == (timestamp_ns, message_index)`
abbrev pub is_current_key : ℕ → ℕ → LatencyScheduler → Bool
is_current_key timestamp_ns message_index s =
    is_at timestamp_ns s.last_market_timestamp_ns && is_at message_index s.last_market_message_index

-- `current_market_timestamp_completed`
abbrev pub current_completed : LatencyScheduler → Bool
current_completed s = elim s.last_market_timestamp_ns [
  | none ↦ false
  | some t ↦ is_at t s.completed_market_timestamp_ns
]
