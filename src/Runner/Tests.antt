-- ===== src/Runner/Tests.antt =====
-- runner.py: a day of one symbol and two events, with a strategy that bids below the best price.
use itch_lab.Base.{◌≡◌, refl, ℕ, ◌-◌, true, none, some, List, [], ◌∷◌, All, nat_eq}
use itch_lab.Base.Int.{pos, negsuc}
use itch_lab.Base.Result.{ok}
use itch_lab.Scheduler.{effective_timestamp}
use itch_lab.StateMachine.{initial, make}
use itch_lab.MarketEvents.{EventKind, MarketEvent}
use itch_lab.MarketEvents.Adapt.{Input}
use itch_lab.QueueModel.Model.{initial_model, make_model}
use itch_lab.Accounting.{empty_ledger, make_ledger, validate_fee_rate}
use itch_lab.Runner.{EventRow, IsKeyed, SnapshotRow, SimulationSymbol, Strategy, Setup, Day, key_eq}
use itch_lab.Runner.Kept.{Kept}
use itch_lab.Runner.Loop.{process_rows, settle_events}
use itch_lab.Runner.Opening.{
  make_strategies, ExecutionScenario, fresh_day, open_day, open_day-IsOpen,
}
use itch_lab.Runner.Steps.{process_rows-Kept}
use itch_lab.Runner.Session.{Closes}
use itch_lab.Runner.Whole.{run_day}
use itch_lab.Runner.Ending.{DayEnds, open_day-DayEnds}

abbrev shares : SimulationSymbol
shares = record { symbol = "ABC"; symbol_id = 4; tick_size4 = 100 }

abbrev seen : SnapshotRow
seen = record {
  symbol_id = 4;
  message_index = 12;
  bid_price4_1 = some 1000000;
  ask_price4_1 = some 1000100;
}

abbrev setup : Setup
setup = record {
  session_start_ns = 34200000000000;
  session_end_ns = 57600000000000;
  decision_interval_ns = 1000000000;
  taker_fee_microusd_per_share = pos 3000;
  symbols = (4, shares) ∷ [];
  snapshots = ((4, 12), seen) ∷ [];
}

-- The strategy holds the last bid that it saw.
abbrev follower : Strategy ℕ
follower = record {
  observe_quote = λ i t bid ask s. (ok tt, bid);
  decide = λ i t held bid. (
    ok (record {
      symbol_id = 4;
      prediction_message_index = none;
      bid = some (record { price4 = bid - 100; quantity = 50 });
      ask = none;
    }),
    bid,
  );
}

abbrev scenario : ExecutionScenario
scenario = record {
  submission_latency_ns = 100000;
  cancellation_latency_ns = 100000;
  maker_fee_microusd_per_share = negsuc 1999;
  taker_fee_microusd_per_share = pos 3000;
}

abbrev added : MarketEvent
added = record {
  message_index = 12;
  timestamp_ns = 34202000000000;
  symbol_id = 4;
  event_kind = EventKind.add;
  primary_reference = some 77;
  secondary_reference = none;
  side = some (pos 1);
  price4 = some 1000000;
  quantity = some 100;
  remaining_quantity = some 100;
  execution_price4 = none;
}

abbrev cancelled : MarketEvent
cancelled = record added {
  message_index = 15;
  timestamp_ns = 34203000000000;
  event_kind = EventKind.cancel;
  quantity = some 40;
  remaining_quantity = some 60;
}

abbrev events : List EventRow
events =
    (record {
      source = Input.event added;
      message_index = some 12;
      timestamp_ns = some 34202000000000;
      in_session = true;
    })
    ∷ (record {
      source = Input.event cancelled;
      message_index = some 15;
      timestamp_ns = some 34203000000000;
      in_session = true;
    })
    ∷ []

events-IsKeyed : All IsKeyed events
events-IsKeyed = ((refl, refl), ((refl, refl), tt))

abbrev day : Day ℕ
day =
    fresh_day (λ _. ok 0) setup (initial_model (initial 100000 100000) 10)
      (empty_ledger (negsuc 1999) 1000) ((4, 0) ∷ []) 0 0

opened : open_day (λ _. ok 0) setup scenario 10 1000 0 0 ≡ ok day
unfolding open_day make_strategies make make_model make_ledger validate_fee_rate effective_timestamp
opened = refl

open_day-DayEnds_example :
    Closes follower setup (settle_events follower setup events day)
    × DayEnds (run_day 0 (λ used all. used) follower setup events day)
open_day-DayEnds_example =
    open_day-DayEnds 0 (λ used all. used) follower setup (λ _. ok 0) scenario 10 1000 0 0 events day
      events-IsKeyed opened

process_rows_example : Kept setup (process_rows follower setup events day)
process_rows_example =
    process_rows-Kept follower setup events day events-IsKeyed
      (open_day-IsOpen (λ _. ok 0) setup scenario 10 1000 0 0 day opened)
