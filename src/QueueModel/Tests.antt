-- ===== src/QueueModel/Tests.antt =====
-- queue_model.py on a book of two orders.
mod Session
use itch_lab.Base.{
  arith, inl, ◌⊎◌, ◌≡◌, refl, ◌↔◌, ◌+◌, ◌-◌, ◌≤◌, none, some, [], ◌∷◌, eqb, nat_eq, if◌then◌else◌,
}
use itch_lab.Base.Int.{pos}
use itch_lab.Base.Dict.{IsDict, lookup, insert}
use itch_lab.Base.Result.{ok}
use itch_lab.Order.{OrderState, SimulatedOrder, max_uint64}
use itch_lab.QueueModel.Activation.{QueueState, level_at, resolve_activation}
use itch_lab.QueueModel.Method.{Ran}
use itch_lab.QueueModel.Prices.Sides.{IsSided, empty_book-IsSided, insert_visible-IsSided}
use itch_lab.QueueModel.Prices.Best.{Crosser}
use itch_lab.QueueModel.Prices.Resolver.{Activated, resolve_activation_total}
use itch_lab.QueueModel.Book.{
  VisibleOrder, VisibleBook, empty_book, insert_visible, remove_visible, decrement_visible,
  add_price, level_eq,
}
use itch_lab.QueueModel.Index.{IsIndexed, empty_book-IsIndexed, insert_visible-IsIndexed}
use itch_lab.QueueModel.Removal.{remove_visible-IsIndexed, decrement_visible-IsIndexed}
use itch_lab.QueueModel.Tracker.{
  TrackedQueue, queue_total, decrement_ahead, quantity_of, queue_total_iff, decrement_ahead_ok,
}

abbrev first : VisibleOrder
first = record {
  reference = 77;
  symbol_id = 4;
  side = pos 1;
  price4 = 1000000;
  remaining_quantity = 100;
  priority_message_index = 3;
}

abbrev second : VisibleOrder
second = record first { reference = 78; remaining_quantity = 40; priority_message_index = 5 }

abbrev book : VisibleBook
book = insert_visible first empty_book

book-IsSided : IsSided book
book-IsSided = insert_visible-IsSided first empty_book empty_book-IsSided

book-IsIndexed : IsIndexed book
unfolding lookup
book-IsIndexed = insert_visible-IsIndexed first empty_book refl empty_book-IsIndexed

first_there : lookup first.reference book.orders ≡ some first
unfolding insert_visible add_price lookup insert
first_there = refl

decrement_visible_example :
    (b : VisibleBook) × (decrement_visible first 30 book ≡ some b)
    × (lookup first.reference b.orders ≡ (
        if eqb (first.remaining_quantity - 30) 0
        then none
        else some (record first { remaining_quantity = first.remaining_quantity - 30 })))
    × IsIndexed b
decrement_visible_example =
    decrement_visible-IsIndexed first book first_there book-IsIndexed 30 (omega arith)

abbrev tracker : TrackedQueue
tracker = record {
  simulated_order_id = 1;
  symbol_id = 4;
  side = pos 1;
  price4 = 1000000;
  initial_quantity = 140;
  ahead = (77, 100) ∷ (78, 40) ∷ [];
}

queue_total_example :
    (queue_total tracker ≡ ok 140)
    ↔ ((140 ≡ quantity_of tracker.ahead) × (quantity_of tracker.ahead ≤ max_uint64))
queue_total_example = queue_total_iff tracker 140

abbrev after_trade : TrackedQueue
after_trade = record tracker { ahead = (77, 70) ∷ (78, 40) ∷ [] }

tracker-IsDict : IsDict tracker.ahead
unfolding lookup
tracker-IsDict = (refl, (refl, tt))

after_trade_ok : decrement_ahead 77 30 tracker ≡ ok after_trade
unfolding decrement_ahead lookup insert
after_trade_ok = refl

decrement_ahead_example : quantity_of after_trade.ahead + 30 ≡ quantity_of tracker.ahead
decrement_ahead_example = decrement_ahead_ok 77 30 tracker tracker-IsDict after_trade_ok

-- An order at the same level of a buy book with nothing on the other side.
abbrev joining : SimulatedOrder
joining = record {
  simulated_order_id = 1;
  decision_message_index = 6;
  prediction_message_index = none;
  requested_timestamp_ns = 1000;
  effective_timestamp_ns = 1500;
  symbol_id = 4;
  side = pos 1;
  price4 = 1000000;
  original_quantity = 100;
  remaining_quantity = 100;
  queue_ahead_initial = none;
  state = OrderState.pending_submit;
  cancel_requested_ns = none;
  terminal_timestamp_ns = none;
  rejection_reason = none;
}

abbrev queue : QueueState
queue = record { book = book; queues = [] }

shown_bound : quantity_of (level_at joining queue.book) ≤ max_uint64
unfolding insert_visible add_price lookup insert
shown_bound = omega arith

resolve_activation_example :
    (Crosser 4 (pos 1) 1000000 book.orders
      × ((resolve_activation joining queue).0 ≡ Ran.returned none))
    ⊎ ((Crosser 4 (pos 1) 1000000 book.orders → ⊥) × Activated joining queue)
resolve_activation_example =
    resolve_activation_total joining queue book-IsIndexed book-IsSided (inl refl) shown_bound
