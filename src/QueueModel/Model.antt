-- ===== src/QueueModel/Model.antt =====
-- queue_model.py: the state of `VisibleQueueModel`, its diagnostics and the budget of anomalies.
use Prim.Native.String.{String}
use itch_lab.Base.{
  ℕ, ◌+◌, Bool, false, ◌||◌, not, Option, none, some, List, [], ◌∷◌, ◌++◌, ltb, eqb, nat_eq,
  if◌then◌else◌,
}
use itch_lab.Base.Int.{ℤ, pos, eqb_ℤ}
use itch_lab.Base.Dict.{Dict, lookup, erase}
use itch_lab.Base.Result.{Result, ok, err}
use itch_lab.Base.Action.{Action}
use itch_lab.Errors.{ErrorCode}
use itch_lab.Order.{fail, valid_int}
use itch_lab.StateMachine.{OrderTransition, OrderStateMachine, order}
use itch_lab.StateMachine.Methods.{is_exposed}
use itch_lab.MarketEvents.{MarketEvent, same_number}
use itch_lab.QueueModel.{QueueFill}
use itch_lab.QueueModel.Book.{VisibleOrder, VisibleBook, empty_book}
use itch_lab.QueueModel.Tracker.{TrackedQueue, queue_error, queue_total}
use itch_lab.QueueModel.Activation.{QueueState}
use itch_lab.QueueModel.Method.{Method, ◌>>=◌, ◌>>◌, pure, gets, modify, lift, at_part, Ran}

pub data QueueDiagnosticCode : Type 0 where
  event_skipped counterfactual_cross broken_trade_observed : QueueDiagnosticCode

pub data QueueAnomalyReason : Type 0 where
  duplicate_reference missing_reference reference_mismatch : QueueAnomalyReason
  quantity_mismatch execution_behind_ahead duplicate_fill_match : QueueAnomalyReason

-- `reason.value`
unfoldable pub reason_value : QueueAnomalyReason → String
reason_value QueueAnomalyReason.duplicate_reference = "duplicate_reference"
reason_value QueueAnomalyReason.missing_reference = "missing_reference"
reason_value QueueAnomalyReason.reference_mismatch = "reference_mismatch"
reason_value QueueAnomalyReason.quantity_mismatch = "quantity_mismatch"
reason_value QueueAnomalyReason.execution_behind_ahead = "execution_behind_known_ahead"
reason_value QueueAnomalyReason.duplicate_fill_match = "duplicate_fill_match"

pub record QueueDiagnostic : Type 0 where
  pub code : QueueDiagnosticCode
  pub message_index : ℕ
  pub symbol_id : ℕ
  pub simulated_order_id : Option ℕ
  pub reason : String

pub record QueueSnapshot : Type 0 where
  pub simulated_order_id : ℕ
  pub initial_quantity : ℕ
  pub current_quantity : ℕ
  pub ahead_references : List (ℕ × ℕ)

pub record QueueEventResult : Type 0 where
  pub event : MarketEvent
  pub transitions : List OrderTransition
  pub fills : List QueueFill
  pub diagnostics : List QueueDiagnostic

pub record VisibleQueueModel : Type 0 where
  pub state_machine : OrderStateMachine
  pub max_queue_anomalies : ℕ
  pub visible : QueueState
  pub used_fill_matches : Dict ℕ ℕ
  pub diagnostics : List QueueDiagnostic
  pub anomaly_count : ℕ

-- `(1 << 53) - 1`
abbrev pub max_safe_json_integer : ℕ
max_safe_json_integer = 9007199254740991

-- What `__init__` stores.
abbrev pub initial_model : OrderStateMachine → ℕ → VisibleQueueModel
initial_model state_machine max_queue_anomalies = record {
  state_machine = state_machine;
  max_queue_anomalies = max_queue_anomalies;
  visible = record { book = empty_book; queues = [] };
  used_fill_matches = [];
  diagnostics = [];
  anomaly_count = 0;
}

-- `__init__`
unfoldable pub make_model : OrderStateMachine → ℕ → Result VisibleQueueModel
make_model state_machine max_queue_anomalies =
    if not (valid_int max_queue_anomalies 0 max_safe_json_integer)
    then err (fail ErrorCode.queue_state none none)
    else ok (initial_model state_machine max_queue_anomalies)

-- `cast(int, value)`, of a value that the event's validation requires.
abbrev pub cast : Option ℕ → ℕ
cast none = 0
cast (some n) = n

-- `cast(int, event.side)`
abbrev pub cast_side : Option ℤ → ℤ
cast_side none = pos 0
cast_side (some side) = side

abbrev pub put_machine : OrderStateMachine → VisibleQueueModel → VisibleQueueModel
put_machine m s = record s { state_machine = m }

-- A call of the state machine.
abbrev pub on_machine : {A : Type 0} → Action OrderStateMachine A → Method VisibleQueueModel A
on_machine = at_part (λ s. s.state_machine) put_machine

abbrev pub put_book : VisibleBook → VisibleQueueModel → VisibleQueueModel
put_book b s = record s { visible = record { book = b; queues = s.visible.queues } }

abbrev pub put_queues : Dict ℕ TrackedQueue → VisibleQueueModel → VisibleQueueModel
put_queues d s = record s { visible = record { book = s.visible.book; queues = d } }

-- `self._diagnostics.append(...)`
abbrev pub noted : QueueDiagnostic → VisibleQueueModel → VisibleQueueModel
noted d s = record s { diagnostics = s.diagnostics ++ d ∷ [] }

abbrev pub anomaly_of : MarketEvent → QueueAnomalyReason → Option ℕ → QueueDiagnostic
anomaly_of event reason simulated_order_id = record {
  code = QueueDiagnosticCode.event_skipped;
  message_index = event.message_index;
  symbol_id = event.symbol_id;
  simulated_order_id = simulated_order_id;
  reason = reason_value reason;
}

-- The state with one anomaly more.
abbrev pub counted :
    MarketEvent → QueueAnomalyReason → Option ℕ → VisibleQueueModel → VisibleQueueModel
counted event reason simulated_order_id s = record s {
  diagnostics = s.diagnostics ++ anomaly_of event reason simulated_order_id ∷ [];
  anomaly_count = s.anomaly_count + 1;
}

-- `_record_anomaly`
unfoldable pub record_anomaly :
    MarketEvent → QueueAnomalyReason → Option ℕ → Method VisibleQueueModel (Unit {0})
record_anomaly event reason simulated_order_id s =
    let s' = counted event reason simulated_order_id s in
    (
      if ltb s'.max_queue_anomalies s'.anomaly_count
          then Ran.raised
              (fail ErrorCode.simulation_anomaly simulated_order_id (some event.message_index))
          else Ran.returned tt,
      s',
    )

-- `self._record_anomaly(event, reason); return a`
abbrev pub skip :
    {A : Type 0} → MarketEvent → QueueAnomalyReason → Option ℕ → A → Method VisibleQueueModel A
skip event reason simulated_order_id a = do record_anomaly event reason simulated_order_id; pure a

-- `visible.side != event.side`, and the same of a number.
abbrev pub same_side : ℤ → Option ℤ → Bool
same_side a none = false
same_side a (some b) = eqb_ℤ a b

-- The event states another symbol, side or price than the order's.
abbrev pub differs : MarketEvent → VisibleOrder → Bool
differs event v =
    not (eqb v.symbol_id event.symbol_id)
    || not (same_side v.side event.side)
    || not (same_number (some v.price4) event.price4)

-- `_validated_existing_order`
unfoldable pub validated_existing_order :
    MarketEvent → Method VisibleQueueModel (Option VisibleOrder)
validated_existing_order event = do
  s ← gets (λ s. s)
  elim (lookup (cast event.primary_reference) s.visible.book.orders) [
    | none ↦ skip event QueueAnomalyReason.missing_reference none none
    | some v ↦
        if differs event v
        then skip event QueueAnomalyReason.reference_mismatch none none
        else pure (some v)
  ]

-- The queues without those of the orders that are no longer exposed.
unfoldable pub synchronised : List OrderTransition → Dict ℕ TrackedQueue → Dict ℕ TrackedQueue
synchronised [] queues = queues
synchronised (t ∷ ts) queues =
    synchronised ts (if is_exposed t.after_state then queues else erase t.simulated_order_id queues)

-- `_synchronise_transitions`
unfoldable pub synchronise_transitions : List OrderTransition → Method VisibleQueueModel (Unit {0})
synchronise_transitions ts = modify (λ s. put_queues (synchronised ts s.visible.queues) s)

-- The end of `queue_snapshot`.
abbrev pub snapshot_of : ℕ → TrackedQueue → ℕ → QueueSnapshot
snapshot_of id t current = record {
  simulated_order_id = id;
  initial_quantity = t.initial_quantity;
  current_quantity = current;
  ahead_references = t.ahead;
}

-- `queue_snapshot`
unfoldable pub queue_snapshot : ℕ → Method VisibleQueueModel QueueSnapshot
queue_snapshot id = do
  s ← gets (λ s. s)
  elim (lookup id s.visible.queues) [
    | none ↦ lift (err (queue_error id))
    | some t ↦ (do
      o ← on_machine (order id)
      if not (is_exposed o.state)
          then lift (err (queue_error id))
          else (do current ← lift (queue_total t); pure (snapshot_of id t current)))
  ]
