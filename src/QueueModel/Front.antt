-- ===== src/QueueModel/Front.antt =====
-- queue_model.py: an execution fills the order that is at the front of its queue.
use itch_lab.Base.{
  ◌≡◌, ◌≢◌, ◌⊎◌, ◌+◌, refl, ◌∙◌, ◌≤◌, ℕ, true, false, none, some, [], arith, nat_eq,
}
use itch_lab.Base.Dict.{lookup, lookup-insert}
use itch_lab.Base.Result.{ok}
use itch_lab.Order.{SimulatedOrder, max_timestamp_ns}
use itch_lab.Scheduler.{is_current_key, current_completed}
use itch_lab.StateMachine.Effects.{FillRecorded, record_fill-FillRecorded}
use itch_lab.QueueModel.{QueueFill}
use itch_lab.StateMachine.{OrderTransition, OrderStateMachine, order, stored, transition}
use itch_lab.StateMachine.Methods.{record_fill, filled_by, fill_cause, is_exposed}
use itch_lab.StateMachine.Totality.{record_fill_total}
use itch_lab.MarketEvents.{MarketEvent}
use itch_lab.QueueModel.Book.{VisibleOrder, VisibleBook}
use itch_lab.QueueModel.Tracker.{TrackedQueue, queue_total, total_from}
use itch_lab.QueueModel.Method.{Ran, Method, ◌>>=◌, pure, gets, modify, lift, or_key_error, at_part}
use itch_lab.QueueModel.Model.{
  VisibleQueueModel, put_machine, put_book, cast, cast_side, differs, validated_existing_order,
}
use itch_lab.QueueModel.Handlers.{mismatch, decrement}
use itch_lab.QueueModel.Execution.{
  Executed, matching_queue, total_before, fill_quantity, fill_order, finish_execution,
  give_up_ahead, execute_order, apply_execution, use_match, min, fill_of,
}
use itch_lab.QueueModel.Consistent.{decrement_visible-IsConsistent}
use itch_lab.QueueModel.Invariant.{IsWithin}
use itch_lab.QueueModel.Invariant.Handlers.{mismatch-covers}

-- The queue that the search finds at the event's level has nothing ahead, its order is exposed and
-- active by now, and the event is an execution of a visible order that fits it.
pub record IsFront (e : MarketEvent) (s : VisibleQueueModel) (v : VisibleOrder) (t : TrackedQueue)
    (o : SimulatedOrder) : Type 0 where
  pub shown : lookup (cast e.primary_reference) s.visible.book.orders ≡ some v
  pub same : differs e v ≡ false
  pub amounts : mismatch e v ≡ false
  pub queue :
      matching_queue e.symbol_id (cast_side e.side) (cast e.price4) s.visible.queues s
      ≡ (Ran.returned (some t), s)
  pub ahead : t.ahead ≡ []
  pub fresh : lookup (cast e.secondary_reference) s.used_fill_matches ≡ none
  pub found : lookup t.simulated_order_id s.state_machine.orders ≡ some o
  pub exposed : is_exposed o.state ≡ true
  pub current : is_current_key e.timestamp_ns e.message_index s.state_machine.scheduler ≡ true
  pub going_on : current_completed s.state_machine.scheduler ≡ false
  pub due : o.effective_timestamp_ns ≤ e.timestamp_ns
  pub day : e.timestamp_ns ≤ max_timestamp_ns
  pub positive : 1 ≤ cast e.quantity

-- The fill of the front: of the queue's order, under the execution's match, at the queue's price and
-- with nothing ahead, of the whole execution or of all that the order has left.
pub record IsFrontFill (e : MarketEvent) (t : TrackedQueue) (o : SimulatedOrder) (f : QueueFill)
    : Type 0 where
  pub order : f.simulated_order_id ≡ t.simulated_order_id
  pub message : f.market_message_index ≡ e.message_index
  pub time : f.timestamp_ns ≡ e.timestamp_ns
  pub match : f.match_number ≡ cast e.secondary_reference
  pub price : f.price4 ≡ t.price4
  pub positive : 1 ≤ f.quantity
  pub whole :
      ((f.quantity ≡ cast e.quantity) × (f.quantity ≤ o.remaining_quantity))
      ⊎ ((f.quantity ≡ o.remaining_quantity) × (f.quantity ≤ cast e.quantity))
  pub ahead : (f.queue_ahead_before ≡ 0) × (f.queue_ahead_after ≡ 0)
  pub remaining : f.remaining_quantity_after + f.quantity ≡ o.remaining_quantity

-- What the execution did.
pub record FrontFilled (e : MarketEvent) (s : VisibleQueueModel) (t : TrackedQueue)
    (o : SimulatedOrder) (r : Ran Executed × VisibleQueueModel) : Type 0 where
  pub fill : QueueFill
  pub transition : OrderTransition
  pub returned : r.0 ≡ Ran.returned (some fill, some transition, true)
  pub filled : IsFrontFill e t o fill
  pub recorded :
      FillRecorded t.simulated_order_id fill.quantity e.timestamp_ns e.message_index o
        s.state_machine
        (ok transition, r.1.state_machine)
  pub used : lookup (cast e.secondary_reference) r.1.used_fill_matches ≡ some t.simulated_order_id
  pub other_matches :
      (m : ℕ)
      → cast e.secondary_reference ≢ m
      → lookup m r.1.used_fill_matches ≡ lookup m s.used_fill_matches
  pub queues : r.1.visible.queues ≡ s.visible.queues
  pub diagnostics : r.1.diagnostics ≡ s.diagnostics
  pub anomalies : r.1.anomaly_count ≡ s.anomaly_count

run-bind :
    {S A B : Type 0} (m : Method S A) (f : A → Method S B) (s : S) {a : A} {s' : S}
    → m s ≡ (Ran.returned a, s')
    → (m >>= f) s ≡ f a s'
unfolding ◌>>=◌
run-bind m f s e = ground (arith, e)

module _ (e : MarketEvent) (s : VisibleQueueModel) (w : IsWithin s) (v : VisibleOrder)
    (t : TrackedQueue) (o : SimulatedOrder) (h : IsFront e s v t o) where
  -- The quantity that fills.
  abbrev pub quantity : ℕ
  quantity = min (cast e.quantity) o.remaining_quantity

  found_order : validated_existing_order e s ≡ (Ran.returned (some v), s)
  unfolding validated_existing_order ◌>>=◌ gets pure
  found_order = ground (arith, h.shown, h.same)

  no_total : total_before (some t) s ≡ (Ran.returned 0, s)
  unfolding total_before lift queue_total total_from
  no_total = rw (h.ahead)

  order_found : order t.simulated_order_id s.state_machine ≡ (ok o, s.state_machine)
  unfolding order
  order_found = ground (
    arith,
    h.found,
    w.sound.machine.book.keyed t.simulated_order_id o h.found,
    (w.sound.machine.book.valid t.simulated_order_id o h.found).request.id_bound,
  )

  filling : fill_quantity e v.reference (some t) 0 s ≡ (Ran.returned quantity, s)
  unfolding fill_quantity ◌>>=◌ gets pure at_part lookup
  filling = ground (arith, h.ahead, h.fresh, order_found)

  bounds : (1 ≤ quantity) × (quantity ≤ o.remaining_quantity)
  bounds = ground (
    arith,
    h.positive,
    (w.sound.machine.book.valid t.simulated_order_id o h.found).shape,
    h.exposed,
  )

  -- The machine once the fill is recorded.
  abbrev pub filled_machine : OrderStateMachine
  filled_machine = stored (filled_by quantity e.timestamp_ns o) s.state_machine

  recorded :
      record_fill t.simulated_order_id quantity e.timestamp_ns e.message_index s.state_machine ≡ (
        ok (
            transition o
              (filled_by quantity e.timestamp_ns o)
              (fill_cause quantity o)
              e.timestamp_ns
              (some e.message_index)
              (some quantity)
              none),
        filled_machine,
      )
  recorded =
      record_fill_total s.state_machine t.simulated_order_id o w.sound.machine.book h.found
        (ground (arith, h.exposed)) quantity e.timestamp_ns e.message_index h.current h.going_on
        h.exposed bounds.0 bounds.1 h.due h.day

  order_after :
      order t.simulated_order_id filled_machine
      ≡ (ok (filled_by quantity e.timestamp_ns o), filled_machine)
  unfolding order
  order_after = ground (
    arith,
    w.sound.machine.book.keyed t.simulated_order_id o h.found,
    (w.sound.machine.book.valid t.simulated_order_id o h.found).request.id_bound,
    lookup-insert o.simulated_order_id t.simulated_order_id (filled_by quantity e.timestamp_ns o)
        s.state_machine.orders,
  )

  -- The state after the fill.
  abbrev pub filled_state : VisibleBook → VisibleQueueModel
  filled_state b =
      use_match (cast e.secondary_reference) t.simulated_order_id
        (put_machine filled_machine (put_book b s))

  fill_after :
      (b : VisibleBook)
      → fill_order e t 0 quantity (put_book b s) ≡ (
        Ran.returned (
          some (fill_of e t quantity 0 0 (filled_by quantity e.timestamp_ns o)),
          some (
              transition o
                (filled_by quantity e.timestamp_ns o)
                (fill_cause quantity o)
                e.timestamp_ns
                (some e.message_index)
                (some quantity)
                none),
          true,
        ),
        filled_state b,
      )
  unfolding fill_order ◌>>=◌ gets pure at_part lift queue_total total_from modify
  fill_after b = ground (arith, recorded, order_after, h.ahead)

  decremented :
      (b : VisibleBook) × (decrement v (cast e.quantity) s ≡ (Ran.returned tt, put_book b s))
  unfolding decrement ◌>>=◌ gets or_key_error modify
  decremented =
      let (b, r, _) =
        decrement_visible-IsConsistent v s.visible.book w.sound.book (cast e.quantity)
          (mismatch-covers e v h.amounts)
          (ground (arith, h.shown, w.sound.book.keyed (cast e.primary_reference) v h.shown)) in
      (b, ground (arith, r))

  nothing_ahead :
      (b : VisibleBook)
      → give_up_ahead e v.reference (some t) (put_book b s) ≡ (Ran.returned tt, put_book b s)
  unfolding give_up_ahead pure lookup
  nothing_ahead b = ground (arith, h.ahead)

  finished :
      (b : VisibleBook)
      → finish_execution e (some t) 0 quantity (put_book b s)
        ≡ fill_order e t 0 quantity (put_book b s)
  unfolding finish_execution
  finished b = ground (arith, bounds)

  execute_from :
      (b : VisibleBook)
      → decrement v (cast e.quantity) s ≡ (Ran.returned tt, put_book b s)
      → execute_order e v s ≡ fill_order e t 0 quantity (put_book b s)
  unfolding execute_order gets
  execute_from b d = rw (h.amounts) (
      run-bind (gets (λ s. s)) _ s refl
      ∙ run-bind (matching_queue e.symbol_id (cast_side e.side) (cast e.price4) s.visible.queues) _
          s h.queue
      ∙ run-bind (total_before (some t)) _ s no_total
      ∙ run-bind (fill_quantity e v.reference (some t) 0) _ s filling
      ∙ run-bind (decrement v (cast e.quantity)) _ s d
      ∙ run-bind (give_up_ahead e v.reference (some t)) _ _ (nothing_ahead b)
      ∙ finished b)

  execution_state :
      (b : VisibleBook) × (apply_execution e s ≡ (
        Ran.returned (
          some (fill_of e t quantity 0 0 (filled_by quantity e.timestamp_ns o)),
          some (
              transition o
                (filled_by quantity e.timestamp_ns o)
                (fill_cause quantity o)
                e.timestamp_ns
                (some e.message_index)
                (some quantity)
                none),
          true,
        ),
        filled_state b,
      ))
  unfolding apply_execution
  execution_state =
      let (b, d) = decremented in
      (b, run-bind (validated_existing_order e) _ s found_order ∙ execute_from b d ∙ fill_after b)

  filled_once :
      (b : VisibleBook)
      → IsFrontFill e t o (fill_of e t quantity 0 0 (filled_by quantity e.timestamp_ns o))
  filled_once b = record {
    order = refl;
    message = refl;
    time = refl;
    match = refl;
    price = refl;
    positive = bounds.0;
    whole = ground arith;
    ahead = (refl, refl);
    remaining = omega (arith, bounds.1);
  }

  -- On a model within its anomaly budget, let an execution of a visible order fit that order, and let
  -- the first exposed queue at its level have nothing ahead, an order that is due, and a match that
  -- was not used, while the execution is the open message of its time. Then the order of the queue is
  -- filled, up to the execution's quantity and its own remainder, at the price of the queue and with
  -- nothing ahead. The machine records this fill, the match is used by the order and no other match
  -- changes, and the queues, the diagnostics and the anomaly count stay as they were.
  pub apply_execution-IsFront : FrontFilled e s t o (apply_execution e s)
  apply_execution-IsFront =
      let (b, q) = execution_state in
      rw q (record {
        fill = fill_of e t quantity 0 0 (filled_by quantity e.timestamp_ns o);
        transition = _;
        returned = refl;
        filled = filled_once b;
        recorded = rw (← recorded) (
            record_fill-FillRecorded s.state_machine t.simulated_order_id o w.sound.machine.book
              h.found (ground (arith, h.exposed)) quantity e.timestamp_ns e.message_index h.current
              h.going_on h.exposed bounds.0 bounds.1 h.due h.day);
        used = ground (
          arith,
          lookup-insert (cast e.secondary_reference) (cast e.secondary_reference)
              t.simulated_order_id s.used_fill_matches,
        );
        other_matches = λ m n. ground (
          arith,
          n,
          lookup-insert (cast e.secondary_reference) m t.simulated_order_id s.used_fill_matches,
        );
        queues = refl;
        diagnostics = refl;
        anomalies = refl;
      })
