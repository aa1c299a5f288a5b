-- ===== src/QueueModel/Tests/Session.antt =====
-- queue_model.py: a session on a book of one order, with a simulated order behind nothing.
use itch_lab.Base.{
  ◌≡◌, ◌↔◌, refl, inr, ℕ, Bool, true, Option, none, some, List, [], ◌∷◌, All, arith, nat_eq,
}
use itch_lab.Base.Int.{pos, negsuc}
use itch_lab.Base.Dict.{lookup, insert}
use itch_lab.StateMachine.{slot_eq, order}
use itch_lab.StateMachine.Tests.{resting, machine, machine-IsValid}
use itch_lab.StateMachine.Calls.{Call}
use itch_lab.MarketEvents.{EventKind, MarketEvent}
use itch_lab.MarketEvents.Adapt.{Input}
use itch_lab.QueueModel.Book.{
  VisibleOrder, VisibleBook, empty_book, insert_visible, add_price, best_visible_price,
}
use itch_lab.QueueModel.Tracker.{TrackedQueue}
use itch_lab.QueueModel.Activation.{book_crosses}
use itch_lab.QueueModel.Consistent.{
  IsConsistent, empty_book-IsConsistent, insert_visible-IsConsistent,
}
use itch_lab.QueueModel.Prices.Sides.{IsSided}
use itch_lab.QueueModel.Prices.Best.{Offers, Crosser, best_visible_price-Offers, crosses-Crosser}
use itch_lab.QueueModel.Method.{Ran, pure, ◌>>=◌, at_part}
use itch_lab.QueueModel.Model.{VisibleQueueModel}
use itch_lab.QueueModel.Handlers.{apply_broken_trade}
use itch_lab.QueueModel.Execution.{matching_queue, apply_execution}
use itch_lab.QueueModel.Process.{process_market_event}
use itch_lab.QueueModel.Invariant.{IsWithin, Keeps}
use itch_lab.QueueModel.Invariant.Process.{Outcome, process_market_event-Keeps}
use itch_lab.QueueModel.Session.{
  Turn, play, Distinct, Used, naming, broken, play-Distinct, play-apply_broken_trade,
}
use itch_lab.QueueModel.Front.{IsFront, FrontFilled, apply_execution-IsFront}

abbrev bid : VisibleOrder
bid = record {
  reference = 77;
  symbol_id = 4;
  side = pos 1;
  price4 = 1000000;
  remaining_quantity = 100;
  priority_message_index = 6;
}

abbrev bids : VisibleBook
bids = insert_visible bid empty_book

bids-IsConsistent : IsConsistent bids
unfolding lookup
bids-IsConsistent = insert_visible-IsConsistent bid empty_book empty_book-IsConsistent refl

abbrev front : TrackedQueue
front = record {
  simulated_order_id = 1;
  symbol_id = 4;
  side = pos 1;
  price4 = 1000000;
  initial_quantity = 40;
  ahead = [];
}

abbrev model : VisibleQueueModel
model = record {
  state_machine = machine;
  max_queue_anomalies = 3;
  visible = record { book = bids; queues = (1, front) ∷ [] };
  used_fill_matches = [];
  diagnostics = [];
  anomaly_count = 0;
}

model-IsWithin : IsWithin model
model-IsWithin = record {
  sound = record { machine = machine-IsValid; book = bids-IsConsistent; anomalies = refl };
  budget = omega arith;
}

abbrev sale : MarketEvent
sale = record {
  message_index = 7;
  timestamp_ns = 2000;
  symbol_id = 4;
  event_kind = EventKind.execute;
  primary_reference = some 77;
  secondary_reference = some 5001;
  side = some (pos 1);
  price4 = some 1000000;
  quantity = some 30;
  remaining_quantity = some 70;
  execution_price4 = none;
}

abbrev next_sale : MarketEvent
next_sale = record sale { message_index = 8 }

abbrev turns : List Turn
turns =
    Turn.receives (Input.event next_sale)
    ∷ Turn.calls (Call.cancels 1 2000 8)
    ∷ Turn.completes 2000
    ∷ []

process_market_event_example :
    Keeps (Outcome model) (process_market_event (Input.event next_sale) model)
process_market_event_example =
    process_market_event-Keeps (Input.event next_sale) model model-IsWithin

play-Distinct_example :
    Keeps (λ fills s. Distinct fills × Used s.used_fill_matches fills) (play turns model)
play-Distinct_example = play-Distinct turns model model-IsWithin

play-apply_broken_trade_example :
    Keeps
      (λ fills s.
        All (λ f. apply_broken_trade (naming sale f) s ≡ (Ran.raised (broken sale f), s)) fills)
      (play turns model)
play-apply_broken_trade_example = play-apply_broken_trade turns sale model model-IsWithin

sale-IsFront : IsFront sale model bid front resting
unfolding lookup insert insert_visible add_price matching_queue pure ◌>>=◌ at_part order
sale-IsFront = record {
  shown = refl;
  same = refl;
  amounts = refl;
  queue = refl;
  ahead = refl;
  fresh = refl;
  found = refl;
  exposed = refl;
  current = refl;
  going_on = refl;
  due = omega arith;
  day = omega arith;
  positive = omega arith;
}

apply_execution_example : FrontFilled sale model front resting (apply_execution sale model)
apply_execution_example =
    apply_execution-IsFront sale model model-IsWithin bid front resting sale-IsFront

best_visible_price_example :
    (best : Option ℕ) × ((best_visible_price 4 (pos 1) bids).0 ≡ some best)
    × Offers (4, pos 1) bids.orders best
    × ((best_visible_price 4 (pos 1) bids).1.orders ≡ bids.orders)
    × ((best_visible_price 4 (pos 1) bids).1.levels ≡ bids.levels)
    × IsSided (best_visible_price 4 (pos 1) bids).1
best_visible_price_example =
    best_visible_price-Offers bids bids-IsConsistent.indexed bids-IsConsistent.sided 4 (pos 1)

crosses_example :
    (crossed : Bool) × ((book_crosses 4 (negsuc 0) 999900 bids).0 ≡ some crossed)
    × ((crossed ≡ true) ↔ Crosser 4 (negsuc 0) 999900 bids.orders)
crosses_example =
    crosses-Crosser bids 4 (negsuc 0) 999900 bids-IsConsistent.indexed bids-IsConsistent.sided
      (inr refl)
