-- ===== src/QueueModel/Activation.antt =====
-- queue_model.py: the resolver that the state machine asks when an order becomes active.
use itch_lab.Base.{◌≡◌, ℕ, Bool, false, Option, none, some, arith, leb, nat_eq, if◌then◌else◌}
use itch_lab.Base.Int.{ℤ, pos, neg, eqb_ℤ}
use itch_lab.Base.Dict.{Dict, insert}
use itch_lab.Base.Result.{ok, err}
use itch_lab.Order.{SimulatedOrder}
use itch_lab.StateMachine.{slot_eq}
use itch_lab.QueueModel.Book.{VisibleBook, level_eq, level_of, best_visible_price}
use itch_lab.QueueModel.Tracker.{TrackedQueue, total_from}
use itch_lab.QueueModel.Method.{Failure, Ran, Method}

-- The part of the queue model's state that the resolver reads and writes.
pub record QueueState : Type 0 where
  pub book : VisibleBook
  pub queues : Dict ℕ TrackedQueue

-- The comparison at the end of `_is_marketable`, with the best opposite price.
abbrev pub crosses : ℤ → ℕ → Option ℕ → Bool
crosses side price4 none = false
crosses side price4 (some opposite) =
    if eqb_ℤ side (pos 1) then leb opposite price4 else leb price4 opposite

-- `_is_marketable` and `_opposite_book_crosses`: whether the best price on the other side crosses,
-- and the book that the search leaves; `none` is the search's KeyError.
unfoldable pub book_crosses : ℕ → ℤ → ℕ → VisibleBook → Option Bool × VisibleBook
book_crosses symbol_id side price4 b =
    let (found, b') = best_visible_price symbol_id (neg side) b in
    (elim found [ none ↦ none | some best ↦ some (crosses side price4 best) ], b')

abbrev pub is_marketable : SimulatedOrder → VisibleBook → Option Bool × VisibleBook
is_marketable o b = book_crosses o.symbol_id o.side o.price4 b

-- The references and quantities at the order's own level.
abbrev pub level_at : SimulatedOrder → VisibleBook → Dict ℕ ℕ
level_at o b = level_of ((o.symbol_id, o.side), o.price4) b.levels

-- `_TrackedQueue(...)`: the copy of the level has its entries in their order.
abbrev pub tracked : SimulatedOrder → ℕ → VisibleBook → TrackedQueue
tracked o total b = record {
  simulated_order_id = o.simulated_order_id;
  symbol_id = o.symbol_id;
  side = o.side;
  price4 = o.price4;
  initial_quantity = total;
  ahead = level_at o b;
}

-- The rest of `_resolve_activation`, of an order that is not marketable.
unfoldable pub track : SimulatedOrder → Method QueueState (Option ℕ)
track o s = elim (total_from o.simulated_order_id (level_at o s.book) 0) [
  | err e ↦ (Ran.raised e, s)
  | ok total ↦ (
    Ran.returned (some total),
    record s { queues = insert o.simulated_order_id (tracked o total s.book) s.queues },
  )
]

-- `_resolve_activation`
unfoldable pub resolve_activation : SimulatedOrder → Method QueueState (Option ℕ)
resolve_activation o s =
    let (marketable, book) = is_marketable o s.book in
    let s' = record s { book = book } in
    elim marketable [
      | none ↦ (Ran.failed Failure.key_error, s')
      | some crossed ↦ if crossed then (Ran.returned none, s') else track o s'
    ]

-- The search changes the heaps only.
pub best_visible_price_keeps :
    (id : ℕ) (side : ℤ) (b : VisibleBook)
    → ((best_visible_price id side b).1.orders ≡ b.orders)
      × ((best_visible_price id side b).1.levels ≡ b.levels)
unfolding best_visible_price
best_visible_price_keeps id side b = ground arith
