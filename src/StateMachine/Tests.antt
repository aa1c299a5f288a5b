-- ===== src/StateMachine/Tests.antt =====
-- Runs of state_machine.py on small machines.
use itch_lab.Base.{◌≡◌, refl, ℕ, ◌+◌, Option, none, some, List, [], ◌∷◌, arith, nat_eq}
use itch_lab.Base.Int.{pos, negsuc}
use itch_lab.Base.Dict.{IsDict, lookup, insert}
use itch_lab.Base.Result.{ok}
use itch_lab.Order.{
  OrderState, OrderRequest, SimulatedOrder, validate_simulated_order, validate_order_request,
  validate_ranges, validate_state,
}
use itch_lab.Order.Validity.{validate_simulated_order_iff}
use itch_lab.Order.Validity as Valid
use itch_lab.Scheduler.{LatencyScheduler}
use itch_lab.StateMachine.{OrderStateMachine, slot_eq, slot_of}
use itch_lab.StateMachine.Methods.{record_fill, expire}
use itch_lab.StateMachine.Actions.{Resolver, before_market_event, after_market_timestamp}
use itch_lab.StateMachine.Book.{IsBook, empty-IsBook, new-IsBook}
use itch_lab.StateMachine.Calls.{Call}
use itch_lab.StateMachine.Calls.Invariant.{IsValid, run, calls-IsValid}
use itch_lab.StateMachine.Calls.Descent.{Descends, run-Keeps}
use itch_lab.StateMachine.Actions.Events.{
  before_market_event-IsValid, before_market_event-Keeps, after_market_timestamp-Keeps,
}
use itch_lab.StateMachine.Effects.{FillRecorded, Expired, record_fill-FillRecorded, expire-Expired}

-- The message 7 of the time 2000 is open.
abbrev open_scheduler : LatencyScheduler
open_scheduler = record {
  heap = [];
  next_sequence = 1;
  last_market_timestamp_ns = some 2000;
  last_market_message_index = some 7;
  completed_market_timestamp_ns = none;
}

abbrev pub resting : SimulatedOrder
resting = record {
  simulated_order_id = 1;
  decision_message_index = 3;
  prediction_message_index = none;
  requested_timestamp_ns = 1000;
  effective_timestamp_ns = 1500;
  symbol_id = 4;
  side = pos 1;
  price4 = 1000000;
  original_quantity = 100;
  remaining_quantity = 100;
  queue_ahead_initial = some 40;
  state = OrderState.active;
  cancel_requested_ns = none;
  terminal_timestamp_ns = none;
  rejection_reason = none;
}

abbrev pub machine : OrderStateMachine
machine = record {
  submission_latency_ns = 500;
  cancellation_latency_ns = 300;
  scheduler = open_scheduler;
  orders = insert 1 resting [];
  occupied_slots = insert (slot_of resting) 1 [];
  scheduled_actions = [];
}

resting-IsValid : Valid.IsValid resting
unfolding validate_simulated_order validate_order_request validate_ranges validate_state
resting-IsValid = (validate_simulated_order_iff resting).0 refl

machine-IsBook : IsBook machine.orders machine.occupied_slots
unfolding lookup
machine-IsBook = new-IsBook empty-IsBook 1 resting resting-IsValid refl refl refl refl

machine-IsDict : IsDict machine.orders
unfolding lookup insert
machine-IsDict = (refl, tt)

pub machine-IsValid : IsValid machine
machine-IsValid = record {
  scheduler = record { sorted = tt; fresh = tt; pending = tt; opened = tt };
  noted = tt;
  book = machine-IsBook;
  dict = machine-IsDict;
}

resting_found : lookup 1 machine.orders ≡ some resting
unfolding lookup insert
resting_found = refl

abbrev other_request : OrderRequest
other_request = record {
  simulated_order_id = 2;
  decision_message_index = 7;
  prediction_message_index = some 6;
  requested_timestamp_ns = 2000;
  symbol_id = 4;
  side = negsuc 0;
  price4 = 1010000;
  quantity = 50;
}

-- A fill, a second order, a cancellation and a call that raises.
abbrev calls : List Call
calls =
    Call.fills 1 30 2000 7
    ∷ Call.submits other_request
    ∷ Call.cancels 1 2000 7
    ∷ Call.rejects 9 2000
    ∷ []

calls-IsValid_example : IsValid (run calls machine)
calls-IsValid_example = calls-IsValid calls machine machine-IsValid

run-Keeps_example :
    (a : SimulatedOrder) × (lookup 1 (run calls machine).orders ≡ some a) × Descends resting a
run-Keeps_example = run-Keeps calls machine machine-IsValid 1 resting resting_found

abbrev resolver : Option (Resolver ℕ)
resolver = some (λ o shown. (ok (some shown), shown + 1))

before_market_event-IsValid_example :
    IsValid (before_market_event 2500 8 resolver (run calls machine, 40)).1.0
before_market_event-IsValid_example =
    before_market_event-IsValid resolver 2500 8 (run calls machine) 40
      (calls-IsValid calls machine machine-IsValid)

before_market_event-Keeps_example :
    (a : SimulatedOrder) × (lookup 1 (before_market_event 2500 8 resolver (machine, 40)).1.0.orders
      ≡ some a)
    × Descends resting a
before_market_event-Keeps_example =
    before_market_event-Keeps resolver 2500 8 machine 40 machine-IsValid 1 resting resting_found

after_market_timestamp-Keeps_example :
    (a : SimulatedOrder) × (lookup 1 (after_market_timestamp 2000 resolver (machine, 40)).1.0.orders
      ≡ some a)
    × Descends resting a
after_market_timestamp-Keeps_example =
    after_market_timestamp-Keeps resolver 2000 machine 40 machine-IsValid 1 resting resting_found

record_fill_example : FillRecorded 1 30 2000 7 resting machine (record_fill 1 30 2000 7 machine)
record_fill_example =
    record_fill-FillRecorded machine 1 resting machine-IsBook resting_found refl 30 2000 7 refl refl
      refl (omega arith) (omega arith) (omega arith) (omega arith)

expire_example : Expired 1 2000 resting machine (expire 1 2000 machine)
expire_example =
    expire-Expired machine 1 resting machine-IsBook resting_found refl 2000 (omega arith)
      (omega arith)
