-- ===== src/QueueModel/Process.antt =====
-- queue_model.py: one source event, and the completion of a timestamp.
use itch_lab.Base.{ℕ, zero, suc, Bool, true, false, Option, none, some, List, [], ◌∷◌, ◌++◌, length}
use itch_lab.Base.Result.{ok, err}
use itch_lab.Base.Action.{Action}
use itch_lab.Errors.{ErrorCode}
use itch_lab.Order.{SimulatedOrder, fail}
use itch_lab.StateMachine.{OrderTransition, OrderStateMachine}
use itch_lab.StateMachine.Actions.{before_market_event, after_market_timestamp}
use itch_lab.MarketEvents.{EventKind, MarketEvent}
use itch_lab.MarketEvents.Adapt.{Input, adapt_market_event}
use itch_lab.QueueModel.Activation.{QueueState, resolve_activation}
use itch_lab.QueueModel.Method.{Method, ◌>>=◌, ◌>>◌, Failure, Ran, ran, pure, gets, or_type_error}
use itch_lab.QueueModel.Model.{QueueEventResult, VisibleQueueModel, synchronise_transitions}
use itch_lab.QueueModel.Handlers.{
  apply_add, apply_cancel, apply_delete, apply_replace, apply_broken_trade,
}
use itch_lab.QueueModel.Execution.{Executed, apply_execution}
use itch_lab.QueueModel.Crossing.{invalidate_crossed_remainders}

-- The resolver as the machine calls it. The machine catches nothing that the resolver raises, so a
-- KeyError ends its call as a SimulationError does: a note beside the resolver's state tells them
-- apart.
unfoldable pub resolver : SimulatedOrder → Action (QueueState × Option Failure) (Option ℕ)
resolver o (s, failed) =
    let (r, s') = resolve_activation o s in
    elim r [
      | Ran.returned ahead ↦ (ok ahead, (s', failed))
      | Ran.raised e ↦ (err e, (s', failed))
      | Ran.failed x ↦ (err (fail ErrorCode.queue_state none none), (s', some x))
    ]

-- The state with what the machine and its resolver have left.
abbrev pub resumed :
    OrderStateMachine × (QueueState × Option Failure) → VisibleQueueModel → VisibleQueueModel
resumed t s = record s { state_machine = t.0; visible = t.1.0 }

-- A call of the machine that may call the activation resolver.
unfoldable pub with_resolver :
    {A : Type 0}
    → Action (OrderStateMachine × (QueueState × Option Failure)) A
    → Method VisibleQueueModel A
with_resolver m s =
    let (r, t) = m (s.state_machine, (s.visible, none)) in
    (elim t.1.1 [ some x ↦ Ran.failed x | none ↦ ran r ], resumed t s)

abbrev pub of_option {ℓ} : {A : Type ℓ} → Option A → List A
of_option none = []
of_option (some a) = a ∷ []

-- `diagnostics[start:]`
abbrev pub drop {ℓ} : {A : Type ℓ} → ℕ → List A → List A
drop zero xs = xs
drop (suc n) [] = []
drop (suc n) (x ∷ xs) = drop n xs

-- `if transition is not None: self._synchronise_transitions((transition,))`
unfoldable pub synchronise_some : Option OrderTransition → Method VisibleQueueModel (Unit {0})
synchronise_some none = pure tt
synchronise_some (some t) = synchronise_transitions (t ∷ [])

unfoldable pub execute : MarketEvent → Method VisibleQueueModel Executed
execute event = do
  (fill, transition, applied) ← apply_execution event
  synchronise_some transition
  pure (fill, transition, applied)

abbrev pub quiet : Method VisibleQueueModel Bool → Method VisibleQueueModel Executed
quiet m = do applied ← m; pure (none, none, applied)

-- The chain of tests on the event's kind.
unfoldable pub apply_event : EventKind → MarketEvent → Method VisibleQueueModel Executed
apply_event EventKind.add event = quiet (apply_add event)
apply_event EventKind.execute event = execute event
apply_event EventKind.execute_price event = execute event
apply_event EventKind.cancel event = quiet (apply_cancel event)
apply_event EventKind.delete event = quiet (apply_delete event)
apply_event EventKind.replace event = quiet (apply_replace event)
apply_event EventKind.broken_trade event = do apply_broken_trade event; pure (none, none, false)
apply_event _ event = pure (none, none, false)

-- `if visible_event_applied: ...`
unfoldable pub invalidations : Bool → MarketEvent → Method VisibleQueueModel (List OrderTransition)
invalidations false event = pure []
invalidations true event = do
  transitions ← invalidate_crossed_remainders event
  synchronise_transitions transitions
  pure transitions

-- `process_market_event`, for the adapted event.
unfoldable pub process_event : MarketEvent → Method VisibleQueueModel QueueEventResult
process_event event = do
  start ← gets (λ s. length s.diagnostics)
  due ← with_resolver (before_market_event event.timestamp_ns event.message_index (some resolver))
  synchronise_transitions due
  (fill, transition, applied) ← apply_event event.event_kind event
  crossed ← invalidations applied event
  diagnostics ← gets (λ s. drop start s.diagnostics)
  pure (record {
    event = event;
    transitions = due ++ of_option transition ++ crossed;
    fills = of_option fill;
    diagnostics = diagnostics;
  })

-- `process_market_event`
unfoldable pub process_market_event : Input → Method VisibleQueueModel QueueEventResult
process_market_event source = do
  event ← or_type_error (adapt_market_event source)
  process_event event

-- `complete_market_timestamp`
unfoldable pub complete_market_timestamp : ℕ → Method VisibleQueueModel (List OrderTransition)
complete_market_timestamp timestamp_ns = do
  transitions ← with_resolver (after_market_timestamp timestamp_ns (some resolver))
  synchronise_transitions transitions
  pure transitions
