-- ===== src/QueueModel/Crossing.antt =====
-- queue_model.py: the simulated orders that the market has moved through lose their remainders.
use Prim.Native.String.{String}
use itch_lab.Base.{
  ℕ, Bool, true, false, ◌&&◌, ◌||◌, not, some, List, [], ◌∷◌, ◌++◌, ltb, eqb, if◌then◌else◌,
}
use itch_lab.Base.Int.{pos, negsuc, eqb_ℤ}
use itch_lab.Base.Dict.{Dict}
use itch_lab.StateMachine.{OrderTransition, order}
use itch_lab.StateMachine.Methods.{is_exposed, invalidate}
use itch_lab.MarketEvents.{EventKind, MarketEvent}
use itch_lab.QueueModel.Tracker.{TrackedQueue}
use itch_lab.QueueModel.Activation.{book_crosses}
use itch_lab.QueueModel.Method.{Method, ◌>>=◌, ◌>>◌, pure, gets, modify, or_key_error}
use itch_lab.QueueModel.Model.{
  QueueDiagnostic, QueueDiagnosticCode, VisibleQueueModel, cast, same_side, on_machine, put_book,
  noted,
}

-- `event_kind in {EXECUTE, EXECUTE_PRICE}`
abbrev pub is_execution : EventKind → Bool
is_execution EventKind.execute = true
is_execution EventKind.execute_price = true
is_execution _ = false

abbrev pub execution_cross : MarketEvent → TrackedQueue → Bool
execution_cross event t =
    is_execution event.event_kind
    && eqb event.symbol_id t.symbol_id
    && same_side t.side event.side
    && ((eqb_ℤ t.side (pos 1) && ltb (cast event.price4) t.price4)
        || (eqb_ℤ t.side (negsuc 0) && ltb t.price4 (cast event.price4)))

-- `_opposite_book_crosses`
unfoldable pub opposite_book_crosses : TrackedQueue → Method VisibleQueueModel Bool
opposite_book_crosses t = do
  s ← gets (λ s. s)
  modify (put_book (book_crosses t.symbol_id t.side t.price4 s.visible.book).1)
  or_key_error (book_crosses t.symbol_id t.side t.price4 s.visible.book).0

abbrev pub cross_diagnostic : MarketEvent → TrackedQueue → String → QueueDiagnostic
cross_diagnostic event t reason = record {
  code = QueueDiagnosticCode.counterfactual_cross;
  message_index = event.message_index;
  symbol_id = event.symbol_id;
  simulated_order_id = some t.simulated_order_id;
  reason = reason;
}

abbrev pub cross_reason : MarketEvent → TrackedQueue → String
cross_reason event t =
    if execution_cross event t
    then "execution_progressed_beyond_limit"
    else "opposite_visible_book_crossed_limit"

-- The end of the loop's body.
unfoldable pub invalidate_order :
    MarketEvent → TrackedQueue → Method VisibleQueueModel (List OrderTransition)
invalidate_order event t = do
  transition ← on_machine (invalidate t.simulated_order_id event.timestamp_ns event.message_index)
  modify (noted (cross_diagnostic event t (cross_reason event t)))
  pure (transition ∷ [])

-- The loop's body: the transitions that it appends.
unfoldable pub check_crossing :
    MarketEvent → TrackedQueue → Method VisibleQueueModel (List OrderTransition)
check_crossing event t = do
  o ← on_machine (order t.simulated_order_id)
  if not (is_exposed o.state)
      then pure []
      else if execution_cross event t
      then invalidate_order event t
      else (do
        crossed ← opposite_book_crosses t
        if crossed then invalidate_order event t else pure [])

-- The loop of `_invalidate_crossed_remainders`.
unfoldable pub invalidate_each :
    MarketEvent → Dict ℕ TrackedQueue → Method VisibleQueueModel (List OrderTransition)
invalidate_each event [] = pure []
invalidate_each event ((_, t) ∷ queues) = do
  transitions ← check_crossing event t
  rest ← invalidate_each event queues
  pure (transitions ++ rest)

-- `_invalidate_crossed_remainders`
unfoldable pub invalidate_crossed_remainders :
    MarketEvent → Method VisibleQueueModel (List OrderTransition)
invalidate_crossed_remainders event = do s ← gets (λ s. s); invalidate_each event s.visible.queues
