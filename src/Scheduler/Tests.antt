-- ===== src/Scheduler/Tests.antt =====
-- Runs of scheduler.py.
use itch_lab.Base.{◌≡◌, refl, ◌↔◌, ◌≤◌, ◌<◌, ◌+◌, ◌++◌, none, some, List, [], ◌∷◌, All, nat_eq}
use itch_lab.Base.Result.{ok}
use itch_lab.Order.{max_timestamp_ns, max_latency_ns}
use itch_lab.Scheduler.{
  ScheduledActionKind, ScheduledAction, LatencyScheduler, init, effective_timestamp,
  actions_before_market, actions_after_market_timestamp, pop_due, validate_market_key, opened,
  completed,
}
use itch_lab.Scheduler.Cases.{effective_timestamp_iff}
use itch_lab.Scheduler.Delivery.{
  actions_before_market-splits, actions_after_market_timestamp-splits,
}
use itch_lab.Scheduler.Invariant.{IsValid, Call, run, init-IsValid, run-IsValid}

abbrev early : ScheduledAction
early = record {
  effective_timestamp_ns = 1500;
  sequence = 1;
  simulated_order_id = 8;
  kind = ScheduledActionKind.activate;
  requested_timestamp_ns = 1000;
  request_message_index = 3;
}

abbrev late : ScheduledAction
late = record {
  effective_timestamp_ns = 2000;
  sequence = 0;
  simulated_order_id = 7;
  kind = ScheduledActionKind.cancel;
  requested_timestamp_ns = 1000;
  request_message_index = 2;
}

abbrev waiting : LatencyScheduler
waiting = record {
  heap = early ∷ late ∷ [];
  next_sequence = 2;
  last_market_timestamp_ns = some 1000;
  last_market_message_index = some 3;
  completed_market_timestamp_ns = none;
}

abbrev calls : List Call
calls =
    Call.opens 1000 3
    ∷ Call.schedules ScheduledActionKind.activate 8 1000 3 500
    ∷ Call.completes 1000
    ∷ Call.opens 900 4
    ∷ []

run-IsValid_example : IsValid (run calls init)
run-IsValid_example = run-IsValid calls init init-IsValid

effective_timestamp_example :
    (effective_timestamp 1000 500 ≡ ok 1500)
    ↔ ((1500 ≡ 1000 + 500) × (500 ≤ max_latency_ns) × (1000 + 500 ≤ max_timestamp_ns))
effective_timestamp_example = effective_timestamp_iff 1000 500 1500

before_waiting : actions_before_market 2000 4 waiting ≡ (ok (early ∷ []), opened 2000 4 waiting)
unfolding actions_before_market validate_market_key pop_due
before_waiting = refl

actions_before_market-splits_example :
    (early ∷ [] ++ (opened 2000 4 waiting).heap ≡ waiting.heap)
    × All (λ a. a.effective_timestamp_ns < 2000) (early ∷ [])
    × All (λ a. 2000 ≤ a.effective_timestamp_ns) (opened 2000 4 waiting).heap
actions_before_market-splits_example =
    actions_before_market-splits 2000 4 waiting ((refl, tt), (tt, tt)) before_waiting

abbrev at_late : LatencyScheduler
at_late = opened 2000 4 waiting

after_waiting :
    actions_after_market_timestamp 2000 at_late ≡ (ok (late ∷ []), completed 2000 at_late)
unfolding actions_after_market_timestamp pop_due
after_waiting = refl

actions_after_market_timestamp-splits_example :
    (late ∷ [] ++ (completed 2000 at_late).heap ≡ at_late.heap)
    × All (λ a. a.effective_timestamp_ns ≤ 2000) (late ∷ [])
    × All (λ a. 2000 < a.effective_timestamp_ns) (completed 2000 at_late).heap
unfolding pop_due
actions_after_market_timestamp-splits_example =
    actions_after_market_timestamp-splits 2000 at_late (tt, tt) after_waiting
