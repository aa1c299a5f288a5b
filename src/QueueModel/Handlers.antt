-- ===== src/QueueModel/Handlers.antt =====
-- queue_model.py: what each kind of event does to the visible book and to the quantities ahead.
use itch_lab.Base.{
  ℕ, ◌-◌, Bool, true, false, ◌||◌, not, Option, none, some, [], ◌∷◌, ltb, eqb, nat_eq,
  if◌then◌else◌,
}
use itch_lab.Base.Dict.{Dict, lookup, contains, insert, erase}
use itch_lab.Base.Result.{err}
use itch_lab.Errors.{ErrorCode}
use itch_lab.Order.{fail}
use itch_lab.MarketEvents.{MarketEvent, same_number}
use itch_lab.QueueModel.Book.{VisibleOrder, insert_visible, remove_visible, decrement_visible}
use itch_lab.QueueModel.Tracker.{TrackedQueue, decrement_ahead}
use itch_lab.QueueModel.Method.{Method, ◌>>=◌, ◌>>◌, pure, gets, modify, lift, or_key_error}
use itch_lab.QueueModel.Model.{
  QueueDiagnostic, QueueDiagnosticCode, QueueAnomalyReason, VisibleQueueModel, cast, cast_side,
  same_side, put_book, put_queues, noted, skip, validated_existing_order,
}

-- `_VisibleOrder(...)`, of an addition or a replacement.
abbrev pub order_of : ℕ → MarketEvent → VisibleOrder
order_of reference event = record {
  reference = reference;
  symbol_id = event.symbol_id;
  side = cast_side event.side;
  price4 = cast event.price4;
  remaining_quantity = cast event.quantity;
  priority_message_index = event.message_index;
}

-- `self._insert_visible_order(...)`
abbrev pub show : VisibleOrder → VisibleQueueModel → VisibleQueueModel
show v s = put_book (insert_visible v s.visible.book) s

-- `_apply_add`
unfoldable pub apply_add : MarketEvent → Method VisibleQueueModel Bool
apply_add event = do
  s ← gets (λ s. s)
  if contains (cast event.primary_reference) s.visible.book.orders
      then skip event QueueAnomalyReason.duplicate_reference none false
      else (do modify (show (order_of (cast event.primary_reference) event)); pure true)

-- `quantity > visible.remaining_quantity or remaining != visible.remaining_quantity - quantity`
abbrev pub mismatch : MarketEvent → VisibleOrder → Bool
mismatch event v =
    ltb v.remaining_quantity (cast event.quantity)
    || not (eqb (cast event.remaining_quantity) (v.remaining_quantity - cast event.quantity))

-- `self._decrement_visible(visible, quantity)`
unfoldable pub decrement : VisibleOrder → ℕ → Method VisibleQueueModel (Unit {0})
decrement v quantity = do
  s ← gets (λ s. s)
  b ← or_key_error (decrement_visible v quantity s.visible.book)
  modify (put_book b)

-- `self._remove_visible_order(visible)`
unfoldable pub remove : VisibleOrder → Method VisibleQueueModel (Unit {0})
remove v = do
  s ← gets (λ s. s)
  b ← or_key_error (remove_visible v s.visible.book)
  modify (put_book b)

-- `_queue_containing`
unfoldable pub queue_containing : ℕ → Dict ℕ TrackedQueue → Option TrackedQueue
queue_containing reference [] = none
queue_containing reference ((_, t) ∷ queues) =
    if contains reference t.ahead then some t else queue_containing reference queues

-- A tracker changed in place.
abbrev pub put_tracker : TrackedQueue → VisibleQueueModel → VisibleQueueModel
put_tracker t s = put_queues (insert t.simulated_order_id t s.visible.queues) s

-- `self._decrement_ahead(tracker, reference, quantity)`, and the tracker as it leaves it.
unfoldable pub give_up : TrackedQueue → ℕ → ℕ → Method VisibleQueueModel TrackedQueue
give_up t reference quantity = do
  t' ← lift (decrement_ahead reference quantity t)
  modify (put_tracker t')
  pure t'

abbrev pub give_up_some : Option TrackedQueue → ℕ → ℕ → Method VisibleQueueModel (Unit {0})
give_up_some none reference quantity = pure tt
give_up_some (some t) reference quantity = do _ ← give_up t reference quantity; pure tt

-- `del tracker.ahead[reference]`, of a tracker that has the reference.
abbrev pub drop_some : Option TrackedQueue → ℕ → VisibleQueueModel → VisibleQueueModel
drop_some none reference s = s
drop_some (some t) reference s = put_tracker (record t { ahead = erase reference t.ahead }) s

-- The queue that has the reference, among those of the state.
abbrev pub holder : ℕ → VisibleQueueModel → Option TrackedQueue
holder reference s = queue_containing reference s.visible.queues

-- The rest of `_apply_cancel`.
unfoldable pub cancel_order : MarketEvent → VisibleOrder → Method VisibleQueueModel Bool
cancel_order event v =
    if mismatch event v then skip event QueueAnomalyReason.quantity_mismatch none false else (do
      decrement v (cast event.quantity)
      tracker ← gets (holder v.reference)
      give_up_some tracker v.reference (cast event.quantity)
      pure true)

-- The rest of a handler, for the order that was found.
abbrev pub with_order :
    {A : Type 0}
    → A
    → (VisibleOrder → Method VisibleQueueModel A)
    → Option VisibleOrder
    → Method VisibleQueueModel A
with_order a rest none = pure a
with_order a rest (some v) = rest v

-- `_apply_cancel`
unfoldable pub apply_cancel : MarketEvent → Method VisibleQueueModel Bool
apply_cancel event = do
  found ← validated_existing_order event
  with_order false (cancel_order event) found

-- The rest of `_apply_delete`.
unfoldable pub delete_order : MarketEvent → VisibleOrder → Method VisibleQueueModel Bool
delete_order event v =
    if not (same_number event.quantity (some v.remaining_quantity))
    then skip event QueueAnomalyReason.quantity_mismatch none false
    else (do remove v; modify (λ s. drop_some (holder v.reference s) v.reference s); pure true)

-- `_apply_delete`
unfoldable pub apply_delete : MarketEvent → Method VisibleQueueModel Bool
apply_delete event = do
  found ← validated_existing_order event
  with_order false (delete_order event) found

-- The end of `_apply_replace`, behind its checks.
unfoldable pub replace_order : MarketEvent → VisibleOrder → Method VisibleQueueModel Bool
replace_order event v = do
  modify (λ s. drop_some (holder v.reference s) v.reference s)
  remove v
  modify (show (order_of (cast event.secondary_reference) event))
  pure true

-- `_apply_replace`
unfoldable pub apply_replace : MarketEvent → Method VisibleQueueModel Bool
apply_replace event = do
  s ← gets (λ s. s)
  elim (lookup (cast event.primary_reference) s.visible.book.orders) [
    | none ↦ skip event QueueAnomalyReason.missing_reference none false
    | some v ↦
        if eqb (cast event.secondary_reference) v.reference
          || contains (cast event.secondary_reference) s.visible.book.orders
        then skip event QueueAnomalyReason.duplicate_reference none false
        else if not (eqb v.symbol_id event.symbol_id) || not (same_side v.side event.side)
        then skip event QueueAnomalyReason.reference_mismatch none false
        else replace_order event v
  ]

abbrev pub broken_trade_diagnostic : MarketEvent → QueueDiagnostic
broken_trade_diagnostic event = record {
  code = QueueDiagnosticCode.broken_trade_observed;
  message_index = event.message_index;
  symbol_id = event.symbol_id;
  simulated_order_id = none;
  reason = "match_not_used_for_simulated_fill";
}

-- `_apply_broken_trade`
unfoldable pub apply_broken_trade : MarketEvent → Method VisibleQueueModel (Unit {0})
apply_broken_trade event = do
  s ← gets (λ s. s)
  elim (lookup (cast event.primary_reference) s.used_fill_matches) [
    | some id ↦ lift (err (fail ErrorCode.broken_sim_fill (some id) (some event.message_index)))
    | none ↦ modify (noted (broken_trade_diagnostic event))
  ]
