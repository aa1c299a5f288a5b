-- ===== src/QueueModel/Invariant/Execution.antt =====
-- queue_model.py: an execution keeps the invariant.
use itch_lab.Base.{
  ◌≡◌, refl, ap, ◌≤◌, ◌+◌, ℕ, true, false, not, Option, none, some, [], ◌∷◌, arith, eqb, nat_eq,
}
use itch_lab.Base.Int.{ℤ}
use itch_lab.Base.Result.{ok}
use itch_lab.Base.Dict.{Dict, lookup, contains, insert}
use itch_lab.Order.{SimulatedOrder}
use itch_lab.StateMachine.{OrderStateMachine}
use itch_lab.StateMachine.Commit.Fills.{Recorded, record_fill-Recorded}
use itch_lab.StateMachine.Methods.{is_exposed, record_fill}
use itch_lab.StateMachine.Calls.{Call, call}
use itch_lab.StateMachine.Calls.Invariant.{call-IsValid}
use itch_lab.MarketEvents.{MarketEvent}
use itch_lab.QueueModel.{QueueFill}
use itch_lab.QueueModel.Book.{VisibleOrder}
use itch_lab.QueueModel.Tracker.{TrackedQueue, queue_total}
use itch_lab.QueueModel.Method.{
  pure, Ends-bind, Ends-gets, Ends-pure, Ends-if, Ends-modify, Ends-map, Ends-lift, Ends-lifted,
  Ends-at_part,
}
use itch_lab.QueueModel.Model.{
  QueueAnomalyReason, skip, VisibleQueueModel, put_machine, cast, cast_side,
}
use itch_lab.QueueModel.Handlers.{mismatch}
use itch_lab.QueueModel.Execution.{
  at_level, matching_queue, total_before, fill_quantity, fill_order, finish_execution,
  give_up_ahead, is_ahead, execute_order, apply_execution, use_match, min, Executed, fill_of,
}
use itch_lab.QueueModel.Invariant.{
  IsWithin, Keeps, Frame, skipped-Frame, order-Keeps, put_machine-IsWithin, skip-Keeps,
}
use itch_lab.QueueModel.Invariant.Handlers.{
  mismatch-covers, decrement-Keeps, give_up_some-Keeps, with_order-Keeps,
}

-- A fill is for an order whose queue is empty, at the execution's price and up to its quantity, and
-- under a match that was not used before; the machine has recorded it.
pub record IsFill (e : MarketEvent) (s s' : VisibleQueueModel) (f : QueueFill) : Type 0 where
  pub fresh : lookup f.match_number s.used_fill_matches ≡ none
  pub used : s'.used_fill_matches ≡ insert f.match_number f.simulated_order_id s.used_fill_matches
  pub matched : f.match_number ≡ cast e.secondary_reference
  pub before : f.queue_ahead_before ≡ 0
  pub after : f.queue_ahead_after ≡ 0
  pub bounded : f.quantity ≤ cast e.quantity
  pub price : f.price4 ≡ cast e.price4
  pub recorded :
      Recorded f.simulated_order_id f.quantity e.timestamp_ns s.state_machine s'.state_machine
  pub remaining : f.quantity + f.remaining_quantity_after ≡ recorded.order.remaining_quantity

-- What an execution does to the orders and to the used matches.
abbrev pub Filled : MarketEvent → VisibleQueueModel → Executed → VisibleQueueModel → Type 0
Filled e s (none, _, _) s' = Frame s tt s'
Filled e s (some f, _, _) s' = IsFill e s s' f

-- The search finds a queue at the level.
abbrev pub AtLevel : ℕ → ℤ → ℕ → Option TrackedQueue → Type 0
AtLevel id side p none = Unit {0}
AtLevel id side p (some t) = at_level id side p t ≡ true

-- The search for the queue at a level changes nothing.
matching_queue-Keeps :
    (id : ℕ) (side : ℤ) (p : ℕ) (queues : Dict ℕ TrackedQueue) (s : VisibleQueueModel)
    → IsWithin s
    → Keeps (λ t s'. (s' ≡ s) × AtLevel id side p t) (matching_queue id side p queues s)
unfolding matching_queue
matching_queue-Keeps id side p [] s w = Ends-pure none s (w, (refl, tt))
matching_queue-Keeps id side p ((_, t) ∷ queues) s w =
    Ends-if (at_level id side p t) _ _ s
      (λ h. order-Keeps s w t.simulated_order_id _ λ o _.
        Ends-if (is_exposed o.state) _ _ s (λ _. Ends-pure (some t) s (w, (refl, h)))
          λ _. matching_queue-Keeps id side p queues s w)
      λ _. matching_queue-Keeps id side p queues s w

-- The known quantity of a queue, if there is one.
abbrev Totals : Option TrackedQueue → ℕ → Type 0
Totals none n = Unit {0}
Totals (some t) n = queue_total t ≡ ok n

total_before-Keeps :
    (t : Option TrackedQueue) (s : VisibleQueueModel)
    → IsWithin s
    → Keeps (λ n s'. (s' ≡ s) × Totals t n) (total_before t s)
unfolding total_before
total_before-Keeps none s w = Ends-pure 0 s (w, (refl, tt))
total_before-Keeps (some t) s w = Ends-lifted (queue_total t) s w.sound λ _ e. (w, (refl, e))

use_match-IsWithin : (m id : ℕ) (s : VisibleQueueModel) → IsWithin s → IsWithin (use_match m id s)
use_match-IsWithin m id s w = record {
  sound = record { machine = w.sound.machine; book = w.sound.book; anomalies = w.sound.anomalies };
  budget = w.budget;
}

module _ (e : MarketEvent) where
  -- A quantity that fills an order is for the front of a queue, under a match that is not used.
  abbrev Fillable : VisibleQueueModel → ℕ → ℕ → Type 0
  Fillable s n q =
      (n ≡ 0)
      × (lookup (cast e.secondary_reference) s.used_fill_matches ≡ none)
      × (q ≤ cast e.quantity)

  -- The visible part, the machine and the used matches are as they were, and the quantity is zero
  -- or fillable.
  abbrev Quantified : VisibleQueueModel → ℕ → ℕ → VisibleQueueModel → Type 0
  Quantified s n q s' =
      (s'.visible ≡ s.visible) × Frame s tt s' × (eqb q 0 ≡ false → Fillable s n q)

  no_fill-Keeps :
      (reason : QueueAnomalyReason) (id : Option ℕ) (n : ℕ) (s : VisibleQueueModel)
      → IsWithin s
      → Keeps (Quantified s n) (skip {A = ℕ} e reason id 0 s)
  no_fill-Keeps reason id n s w = Ends-map (skip-Keeps s w {A = ℕ} e reason id 0) λ q s' h. (
    h.0,
    (
      ap (λ x. x.visible) h.1.1,
      skipped-Frame s w e reason id s' h.1.1,
      λ z. absurd (ground (arith, h.1.0, z)),
    ),
  )

  zero-Keeps :
      (n : ℕ) (s : VisibleQueueModel) → IsWithin s → Keeps (Quantified s n) (pure {A = ℕ} 0 s)
  zero-Keeps n s w = Ends-pure {A = ℕ} 0 s (w, (refl, (refl, refl), λ z. absurd (cc)))

  fill_quantity-Keeps :
      (r : ℕ) (t : Option TrackedQueue) (n : ℕ) (s : VisibleQueueModel)
      → IsWithin s
      → Keeps (Quantified s n) (fill_quantity e r t n s)
  unfolding fill_quantity
  fill_quantity-Keeps r none n s w = zero-Keeps n s w
  fill_quantity-Keeps r (some t) n s w = Ends-gets _ _ s (
      Ends-if (contains r t.ahead) _ _ s (λ _. zero-Keeps n s w)
        λ _.
          Ends-if (not (eqb n 0)) _ _ s (λ _. no_fill-Keeps _ (some t.simulated_order_id) n s w)
            λ z.
              Ends-if (contains (cast e.secondary_reference) s.used_fill_matches) _ _ s
                (λ _. no_fill-Keeps _ (some t.simulated_order_id) n s w)
                λ u. order-Keeps s w t.simulated_order_id _ λ o _.
                  Ends-pure (min (cast e.quantity) o.remaining_quantity) s
                    (w, (refl, (refl, refl), λ _. ground (arith, z, u))))

  give_up_ahead-Keeps :
      (r : ℕ) (t : Option TrackedQueue) (s : VisibleQueueModel)
      → IsWithin s
      → Keeps (Frame s) (give_up_ahead e r t s)
  unfolding give_up_ahead
  give_up_ahead-Keeps r t s w =
      Ends-if (is_ahead r t) _ _ s (λ _. give_up_some-Keeps s w t r (cast e.quantity))
        λ _. Ends-pure tt s (w, (refl, refl))

  fill_of-IsFill :
      (t : TrackedQueue) (n q a : ℕ) (s : VisibleQueueModel) (m : OrderStateMachine)
      (o : SimulatedOrder)
      → Fillable s n q
      → t.price4 ≡ cast e.price4
      → queue_total t ≡ ok n
      → queue_total t ≡ ok a
      → Recorded t.simulated_order_id q e.timestamp_ns s.state_machine m
      → lookup t.simulated_order_id m.orders ≡ some o
      → IsFill e s
          (use_match (cast e.secondary_reference) t.simulated_order_id (put_machine m s))
          (fill_of e t q n a o)
  fill_of-IsFill t n q a s m o f p b b' r l = record {
    fresh = f.1;
    used = refl;
    matched = refl;
    before = f.0;
    after = ground (arith, b, b', f.0);
    bounded = f.2;
    price = p;
    recorded = r;
    remaining = ground (arith, r.written, r.bounded, l);
  }

  fill_order-Keeps :
      (t : TrackedQueue) (n q : ℕ) (s : VisibleQueueModel)
      → IsWithin s
      → Fillable s n q
      → t.price4 ≡ cast e.price4
      → queue_total t ≡ ok n
      → Keeps (Filled e s) (fill_order e t n q s)
  unfolding fill_order call
  fill_order-Keeps t n q s w f p b =
      let id = t.simulated_order_id in
      let m = (record_fill id q e.timestamp_ns e.message_index s.state_machine).1 in
      let v =
        call-IsValid (Call.fills id q e.timestamp_ns e.message_index) s.state_machine
          w.sound.machine in
      let w' = put_machine-IsWithin s w _ v in
      let w'' = use_match-IsWithin (cast e.secondary_reference) id _ w' in
      Ends-at_part _ _ (record_fill id q e.timestamp_ns e.message_index) _ s w'.sound λ x done.
        Ends-modify _ _ _ (
          order-Keeps _ w'' id _ λ o l. Ends-lift (queue_total t) _ _ w''.sound λ after b'.
            Ends-pure _ _ (
              w'',
              fill_of-IsFill t n q after s m o f p b b'
                  (record_fill-Recorded id q e.timestamp_ns e.message_index s.state_machine x
                    (w.sound.machine.book.keyed id) done)
                  l,
            ))

  -- What holds of the state before the book was changed holds of the state with the book changed.
  Fillable-Frame :
      (s u : VisibleQueueModel) (n q : ℕ) → Frame s tt u → Fillable s n q → Fillable u n q
  Fillable-Frame s u n q h f = rw (h.1) f

  pub Filled-Frame :
      (s u s' : VisibleQueueModel) (x : Executed) → Frame s tt u → Filled e u x s' → Filled e s x s'
  Filled-Frame s u s' (none, _, _) h f = ground (arith, h, f)
  Filled-Frame s u s' (some x, _, _) h f = record {
    fresh = ground (arith, h.1, f.fresh);
    used = ground (arith, h.1, f.used);
    matched = f.matched;
    before = f.before;
    after = f.after;
    bounded = f.bounded;
    price = f.price;
    recorded = record {
      order = f.recorded.order;
      found = ground (arith, h.0, f.recorded.found);
      exposed = f.recorded.exposed;
      positive = f.recorded.positive;
      bounded = f.recorded.bounded;
      written = f.recorded.written;
    };
    remaining = f.remaining;
  }

  finish_execution-Keeps :
      (t : Option TrackedQueue) (n q : ℕ) (s : VisibleQueueModel)
      → IsWithin s
      → AtLevel e.symbol_id (cast_side e.side) (cast e.price4) t
      → Totals t n
      → (eqb q 0 ≡ false → Fillable s n q)
      → Keeps (Filled e s) (finish_execution e t n q s)
  unfolding finish_execution
  finish_execution-Keeps none n q s w l b f = Ends-pure _ s (w, (refl, refl))
  finish_execution-Keeps (some t) n q s w l b f =
      Ends-if (eqb q 0) _ _ s (λ _. Ends-pure _ s (w, (refl, refl)))
        λ z. fill_order-Keeps t n q s w (f z) (ground (arith, l)) b

  execute_order-Keeps :
      (v : VisibleOrder) (s : VisibleQueueModel)
      → IsWithin s
      → lookup v.reference s.visible.book.orders ≡ some v
      → Keeps (Filled e s) (execute_order e v s)
  unfolding execute_order
  execute_order-Keeps v s w f =
      Ends-if (mismatch e v) _ _ s
        (λ _.
          Ends-map (skip-Keeps s w e _ none (none, none, false))
            λ x s' h. (h.0, rw (h.1.0) (skipped-Frame s w e _ none s' h.1.1)))
        λ m. Ends-gets _ _ s (
          Ends-bind _ _ s (matching_queue-Keeps _ _ _ s.visible.queues s w) λ t s1 h1.
            Ends-bind _ _ s1 (total_before-Keeps t s1 h1.0) λ n s2 h2.
              Ends-bind _ _ s2 (fill_quantity-Keeps v.reference t n s2 h2.0) λ q s3 h3.
                Ends-bind _ _ s3
                  (decrement-Keeps s3 h3.0 v (cast e.quantity) (mismatch-covers e v m)
                    (rw (h3.1.0, h2.1.0, h1.1.0) f))
                  λ _ s4 h4. Ends-bind _ _ s4 (give_up_ahead-Keeps v.reference t s4 h4.0) λ _ s5 h5.
                    let framed : Frame s tt s5 =
                      ground (arith, h1.1.0, h2.1.0, h3.1.1, h4.1.1, h5.1) in
                    let same : s2 ≡ s = ground (arith, h1.1.0, h2.1.0) in
                    Ends-map
                      (finish_execution-Keeps t n q s5 h5.0 h1.1.1 h2.1.1
                        λ z. Fillable-Frame s2 s5 n q (rw same framed) (h3.1.2 z))
                      λ x s' k. (k.0, Filled-Frame s s5 s' x framed k.1))

  pub apply_execution-Keeps :
      (s : VisibleQueueModel) → IsWithin s → Keeps (Filled e s) (apply_execution e s)
  unfolding apply_execution
  apply_execution-Keeps s w =
      with_order-Keeps s w e (none, none, false) (execute_order e) (λ _ h. h)
        λ v f _. execute_order-Keeps v s w f
