-- ===== src/QueueModel/Invariant/Crossing.antt =====
-- queue_model.py: the check for crossed remainders keeps the invariant.
use itch_lab.Base.{refl, ◌∙◌, ℕ, not, [], ◌∷◌, ◌++◌}
use itch_lab.Base.Dict.{Dict}
use itch_lab.StateMachine.Methods.{is_exposed, invalidate}
use itch_lab.StateMachine.Calls.{Call, call}
use itch_lab.StateMachine.Calls.Invariant.{call-IsValid}
use itch_lab.MarketEvents.{MarketEvent}
use itch_lab.QueueModel.Tracker.{TrackedQueue}
use itch_lab.QueueModel.Consistent.{book_crosses-IsConsistent}
use itch_lab.QueueModel.Method.{
  Ends-bind, Ends-gets, Ends-pure, Ends-if, Ends-modify, Ends-at_part, Ends-map, returns,
  or_key_error,
}
use itch_lab.QueueModel.Model.{VisibleQueueModel}
use itch_lab.QueueModel.Crossing.{
  execution_cross, opposite_book_crosses, cross_diagnostic, cross_reason, invalidate_order,
  check_crossing, invalidate_each, invalidate_crossed_remainders,
}
use itch_lab.QueueModel.Invariant.{
  IsWithin, Keeps, SameMatches, order-Keeps, put_machine-IsWithin, put_book-IsWithin,
  noted-IsWithin,
}

module _ (e : MarketEvent) where
  invalidate_order-Keeps :
      (t : TrackedQueue) (s : VisibleQueueModel)
      → IsWithin s
      → Keeps (SameMatches s) (invalidate_order e t s)
  unfolding invalidate_order call
  invalidate_order-Keeps t s w =
      let id = t.simulated_order_id in
      let v =
        call-IsValid (Call.invalidates id e.timestamp_ns e.message_index) s.state_machine
          w.sound.machine in
      let w' = put_machine-IsWithin s w _ v in
      Ends-at_part _ _ (invalidate id e.timestamp_ns e.message_index) _ s w'.sound λ x _.
        Ends-modify _ _ _ (
          Ends-pure (x ∷ []) _
            (noted-IsWithin _ w' (cross_diagnostic e t (cross_reason e t)) refl, refl))

  opposite_book_crosses-Keeps :
      (t : TrackedQueue) (s : VisibleQueueModel)
      → IsWithin s
      → Keeps (SameMatches s) (opposite_book_crosses t s)
  unfolding opposite_book_crosses
  opposite_book_crosses-Keeps t s w =
      let (c, crossed, f) =
        book_crosses-IsConsistent t.symbol_id t.side t.price4 s.visible.book w.sound.book in
      let w' = put_book-IsWithin s w _ c in
      Ends-gets _ _ s (Ends-modify _ _ s (rw f (unfold or_key_error in returns (w', refl))))

  check_crossing-Keeps :
      (t : TrackedQueue) (s : VisibleQueueModel)
      → IsWithin s
      → Keeps (SameMatches s) (check_crossing e t s)
  unfolding check_crossing
  check_crossing-Keeps t s w = order-Keeps s w t.simulated_order_id _ λ o _.
      Ends-if (not (is_exposed o.state)) _ _ s (λ _. Ends-pure [] s (w, refl))
        λ _.
          Ends-if (execution_cross e t) _ _ s (λ _. invalidate_order-Keeps t s w)
            λ _. Ends-bind _ _ s (opposite_book_crosses-Keeps t s w) λ crossed s' h.
              Ends-if crossed _ _ s'
                (λ _. Ends-map (invalidate_order-Keeps t s' h.0) λ _ _ k. (k.0, k.1 ∙ h.1))
                λ _. Ends-pure [] s' h

  invalidate_each-Keeps :
      (queues : Dict ℕ TrackedQueue) (s : VisibleQueueModel)
      → IsWithin s
      → Keeps (SameMatches s) (invalidate_each e queues s)
  unfolding invalidate_each
  invalidate_each-Keeps [] s w = Ends-pure [] s (w, refl)
  invalidate_each-Keeps ((_, t) ∷ queues) s w =
      Ends-bind _ _ s (check_crossing-Keeps t s w) λ ts s' h.
        Ends-bind _ _ s' (invalidate_each-Keeps queues s' h.0)
          λ rest s'' h'. Ends-pure (ts ++ rest) s'' (h'.0, h'.1 ∙ h.1)

  pub invalidate_crossed_remainders-Keeps :
      (s : VisibleQueueModel)
      → IsWithin s
      → Keeps (SameMatches s) (invalidate_crossed_remainders e s)
  unfolding invalidate_crossed_remainders
  invalidate_crossed_remainders-Keeps s w =
      Ends-gets _ _ s (invalidate_each-Keeps s.visible.queues s w)
