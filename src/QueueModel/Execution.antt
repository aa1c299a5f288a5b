-- ===== src/QueueModel/Execution.antt =====
-- queue_model.py: what an execution does to the visible book, the quantities ahead and the
-- simulated order that was next in the queue.
use itch_lab.Base.{
  ℕ, Bool, true, false, ◌&&◌, not, Option, none, some, [], ◌∷◌, ltb, eqb, nat_eq, if◌then◌else◌,
}
use itch_lab.Base.Int.{ℤ, eqb_ℤ}
use itch_lab.Base.Dict.{Dict, contains, insert}
use itch_lab.Order.{SimulatedOrder}
use itch_lab.StateMachine.{OrderTransition, order}
use itch_lab.StateMachine.Methods.{is_exposed, record_fill}
use itch_lab.MarketEvents.{MarketEvent}
use itch_lab.QueueModel.{QueueFill}
use itch_lab.QueueModel.Book.{VisibleOrder}
use itch_lab.QueueModel.Tracker.{TrackedQueue, queue_total}
use itch_lab.QueueModel.Method.{Method, ◌>>=◌, ◌>>◌, pure, gets, modify, lift}
use itch_lab.QueueModel.Model.{
  QueueAnomalyReason, VisibleQueueModel, cast, cast_side, on_machine, skip,
  validated_existing_order,
}
use itch_lab.QueueModel.Handlers.{mismatch, decrement, give_up_some, with_order}

abbrev pub at_level : ℕ → ℤ → ℕ → TrackedQueue → Bool
at_level symbol_id side price4 t =
    eqb t.symbol_id symbol_id && eqb_ℤ t.side side && eqb t.price4 price4

-- `_matching_queue`
unfoldable pub matching_queue :
    ℕ → ℤ → ℕ → Dict ℕ TrackedQueue → Method VisibleQueueModel (Option TrackedQueue)
matching_queue symbol_id side price4 [] = pure none
matching_queue symbol_id side price4 ((_, t) ∷ queues) =
    let rest = matching_queue symbol_id side price4 queues in
    if at_level symbol_id side price4 t
    then (do
      o ← on_machine (order t.simulated_order_id)
      if is_exposed o.state then pure (some t) else rest)
    else rest

-- `0 if tracker is None else self._queue_total(tracker)`
unfoldable pub total_before : Option TrackedQueue → Method VisibleQueueModel ℕ
total_before none = pure 0
total_before (some t) = lift (queue_total t)

-- `tracker is not None and reference in tracker.ahead`
abbrev pub is_ahead : ℕ → Option TrackedQueue → Bool
is_ahead reference none = false
is_ahead reference (some t) = contains reference t.ahead

abbrev pub min : ℕ → ℕ → ℕ
min a b = if ltb b a then b else a

-- The quantity that fills the order of the queue at the level.
unfoldable pub fill_quantity :
    MarketEvent → ℕ → Option TrackedQueue → ℕ → Method VisibleQueueModel ℕ
fill_quantity event reference none queue_before = pure 0
fill_quantity event reference (some t) queue_before = do
  s ← gets (λ s. s)
  if contains reference t.ahead
      then pure 0
      else if not (eqb queue_before 0)
      then skip event QueueAnomalyReason.execution_behind_ahead (some t.simulated_order_id) 0
      else if contains (cast event.secondary_reference) s.used_fill_matches
      then skip event QueueAnomalyReason.duplicate_fill_match (some t.simulated_order_id) 0
      else (do
        o ← on_machine (order t.simulated_order_id)
        pure (min (cast event.quantity) o.remaining_quantity))

-- `self._used_fill_matches[match_number] = ...`
abbrev pub use_match : ℕ → ℕ → VisibleQueueModel → VisibleQueueModel
use_match match_number id s = record s {
  used_fill_matches = insert match_number id s.used_fill_matches;
}

abbrev pub fill_of : MarketEvent → TrackedQueue → ℕ → ℕ → ℕ → SimulatedOrder → QueueFill
fill_of event t quantity queue_before queue_after order_after = record {
  simulated_order_id = t.simulated_order_id;
  market_message_index = event.message_index;
  timestamp_ns = event.timestamp_ns;
  match_number = cast event.secondary_reference;
  price4 = t.price4;
  quantity = quantity;
  queue_ahead_before = queue_before;
  queue_ahead_after = queue_after;
  remaining_quantity_after = order_after.remaining_quantity;
}

-- The fill, its transition, and whether the visible book has changed.
abbrev pub Executed : Type 0
Executed = Option QueueFill × Option OrderTransition × Bool

-- The end of `_apply_execution`, where the order is filled.
unfoldable pub fill_order : MarketEvent → TrackedQueue → ℕ → ℕ → Method VisibleQueueModel Executed
fill_order event t queue_before quantity = do
  transition ←
      on_machine (record_fill t.simulated_order_id quantity event.timestamp_ns event.message_index)
  modify (use_match (cast event.secondary_reference) t.simulated_order_id)
  order_after ← on_machine (order t.simulated_order_id)
  queue_after ← lift (queue_total t)
  pure (some (fill_of event t quantity queue_before queue_after order_after), some transition, true)

-- `if fill_quantity == 0 or tracker is None: ...`, and the end. A tracker whose order is filled
-- has not given up a reference in this event.
unfoldable pub finish_execution :
    MarketEvent → Option TrackedQueue → ℕ → ℕ → Method VisibleQueueModel Executed
finish_execution event none queue_before quantity = pure (none, none, true)
finish_execution event (some t) queue_before quantity =
    if eqb quantity 0 then pure (none, none, true) else fill_order event t queue_before quantity

-- `if target_ahead: self._decrement_ahead(...)`
unfoldable pub give_up_ahead :
    MarketEvent → ℕ → Option TrackedQueue → Method VisibleQueueModel (Unit {0})
give_up_ahead event reference tracker =
    if is_ahead reference tracker
    then give_up_some tracker reference (cast event.quantity)
    else pure tt

-- `_apply_execution`, for the order that was found.
unfoldable pub execute_order : MarketEvent → VisibleOrder → Method VisibleQueueModel Executed
execute_order event v =
    if mismatch event v
    then skip event QueueAnomalyReason.quantity_mismatch none (none, none, false)
    else (do
      s ← gets (λ s. s)
      tracker ←
          matching_queue event.symbol_id (cast_side event.side) (cast event.price4) s.visible.queues
      queue_before ← total_before tracker
      quantity ← fill_quantity event v.reference tracker queue_before
      decrement v (cast event.quantity)
      give_up_ahead event v.reference tracker
      finish_execution event tracker queue_before quantity)

-- `_apply_execution`
unfoldable pub apply_execution : MarketEvent → Method VisibleQueueModel Executed
apply_execution event = do
  found ← validated_existing_order event
  with_order (none, none, false) (execute_order event) found
