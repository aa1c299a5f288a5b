-- ===== src/QueueModel/Prices/Resolver.antt =====
-- queue_model.py: what the activation resolver answers on a book in order.
use itch_lab.Base.{
  ◌≡◌, ◌⊎◌, refl, ap, ◌∙◌, ℕ, ◌≤◌, true, false, none, some, inl, inr, arith, nat_eq, Bool-cases,
}
use itch_lab.Base.Int.{pos, negsuc, neg}
use itch_lab.Base.Dict.{lookup, insert, lookup-insert}
use itch_lab.Order.{SimulatedOrder, max_uint64}
use itch_lab.QueueModel.Book.{level_eq}
use itch_lab.QueueModel.Index.{IsIndexed}
use itch_lab.QueueModel.Tracker.{TrackedQueue, quantity_of, total_from_iff}
use itch_lab.QueueModel.Method.{Ran}
use itch_lab.QueueModel.Activation.{
  QueueState, level_at, tracked, track, is_marketable, book_crosses, resolve_activation,
  best_visible_price_keeps,
}
use itch_lab.QueueModel.Prices.Sides.{IsSided}
use itch_lab.QueueModel.Prices.Best.{Crosser, crosses-Crosser}

-- The order was activated behind the quantity shown at its level, which is now tracked.
pub record Queued (o : SimulatedOrder) (s s' : QueueState) (total : ℕ) : Type 0 where
  pub shown : total ≡ quantity_of (level_at o s.book)
  pub bounded : total ≤ max_uint64
  pub tracker : TrackedQueue
  pub stored : lookup o.simulated_order_id s'.queues ≡ some tracker
  pub ahead : tracker.ahead ≡ level_at o s.book
  pub initial : tracker.initial_quantity ≡ total

module _ (o : SimulatedOrder) (s : QueueState) where
  -- The state after the search on the other side.
  abbrev after_search : QueueState
  after_search = record s { book = (is_marketable o s.book).1 }

  level_same : level_at o after_search.book ≡ level_at o s.book
  unfolding book_crosses
  level_same = ground (arith, best_visible_price_keeps o.symbol_id (neg o.side) s.book)

  marketable :
      (is_marketable o s.book).0 ≡ some true → (resolve_activation o s).0 ≡ Ran.returned none
  unfolding resolve_activation
  marketable h = ground arith

  passive : (is_marketable o s.book).0 ≡ some false → resolve_activation o s ≡ track o after_search
  unfolding resolve_activation
  passive h = ground arith

  track_ok :
      quantity_of (level_at o s.book) ≤ max_uint64
      → let n = quantity_of (level_at o s.book) in
        track o after_search ≡ (
          Ran.returned (some n),
          record after_search {
            queues = insert o.simulated_order_id (tracked o n after_search.book) s.queues;
          },
        )
  unfolding track
  track_ok h = ground (
    arith,
    h,
    level_same,
    total_from_iff o.simulated_order_id (level_at o after_search.book) 0
        (quantity_of (level_at o s.book)) (omega arith),
  )

  -- The order was activated behind the quantity shown at its level.
  abbrev pub Activated : Type 0
  Activated =
      let n = quantity_of (level_at o s.book) in
      ((resolve_activation o s).0 ≡ Ran.returned (some n)) × Queued o s (resolve_activation o s).1 n

  activated :
      quantity_of (level_at o s.book) ≤ max_uint64
      → (is_marketable o s.book).0 ≡ some false
      → Activated
  activated h c =
      let n = quantity_of (level_at o s.book) in
      let e = passive c ∙ track_ok h in
      rw e (
        refl,
        record {
          shown = refl;
          bounded = h;
          tracker = tracked o n after_search.book;
          stored = ground (
            arith,
            lookup-insert o.simulated_order_id o.simulated_order_id (tracked o n after_search.book)
                s.queues,
          );
          ahead = level_same;
          initial = refl;
        },
      )

  -- On a book in order, for a buy or a sell at whose level the quantity shown is within 64 bits, the
  -- resolver returns: nothing if an order stands on the other side that the order would trade
  -- against, and otherwise the quantity shown, with the level's references and quantities tracked
  -- under the order's identifier.
  pub resolve_activation_total :
      IsIndexed s.book
      → IsSided s.book
      → (o.side ≡ pos 1) ⊎ (o.side ≡ negsuc 0)
      → quantity_of (level_at o s.book) ≤ max_uint64
      → (Crosser o.symbol_id o.side o.price4 s.book.orders
          × ((resolve_activation o s).0 ≡ Ran.returned none))
        ⊎ ((Crosser o.symbol_id o.side o.price4 s.book.orders → ⊥) × Activated)
  resolve_activation_total i d side h =
      let (crossed, e, iff) = crosses-Crosser s.book o.symbol_id o.side o.price4 i d side in
      elim (Bool-cases crossed) [
        | inl c ↦ inl (iff.0 c, marketable (e ∙ ap some c))
        | inr c ↦ inr (λ x. absurd (ground (arith, c, iff.1 x)), activated h (e ∙ ap some c))
      ]
