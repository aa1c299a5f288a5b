-- ===== src/QueueModel/Invariant/Process.antt =====
-- queue_model.py: one source event, and the completion of a timestamp, keep the invariant.
use itch_lab.Base.{
  ◌≡◌, refl, sym, subst, ◌∙◌, ap, ℕ, Bool, true, false, Option, none, some, List, [], ◌∷◌, arith,
}
use itch_lab.Base.Result.{ok}
use itch_lab.Base.Action.{Action}
use itch_lab.Order.{SimulatedOrder}
use itch_lab.StateMachine.{OrderTransition, OrderStateMachine}
use itch_lab.StateMachine.Calls.Invariant as Machine
use itch_lab.StateMachine.Actions.{before_market_event, after_market_timestamp}
use itch_lab.StateMachine.Actions.Events.{
  before_market_event-IsValid, after_market_timestamp-IsValid,
}
use itch_lab.StateMachine.Actions.Resolved.{before_market_event_keeps, after_market_timestamp_keeps}
use itch_lab.MarketEvents.{EventKind, MarketEvent}
use itch_lab.MarketEvents.Adapt.{Input, adapt_market_event}
use itch_lab.QueueModel.{QueueFill}
use itch_lab.QueueModel.Activation.{QueueState, is_marketable, track, resolve_activation}
use itch_lab.QueueModel.Consistent.{IsConsistent, book_crosses-IsConsistent}
use itch_lab.QueueModel.Method.{
  Failure, Method, ◌>>=◌, Ends, Ends-bind, Ends-gets, Ends-pure, Ends-map, Ends-or_type_error,
  Ends-ran, ran,
}
use itch_lab.QueueModel.Model.{QueueEventResult, VisibleQueueModel, synchronise_transitions}
use itch_lab.QueueModel.Execution.{Executed}
use itch_lab.QueueModel.Process.{
  resolver, resumed, with_resolver, synchronise_some, execute, quiet, apply_event, invalidations,
  process_event, process_market_event, complete_market_timestamp, of_option,
}
use itch_lab.QueueModel.Invariant.{
  IsWithin, Keeps, Frame, SameMatches, synchronise_transitions-Keeps,
}
use itch_lab.QueueModel.Invariant.Handlers.{
  apply_add-Keeps, apply_cancel-Keeps, apply_delete-Keeps, apply_replace-Keeps,
  apply_broken_trade-Keeps,
}
use itch_lab.QueueModel.Invariant.Execution.{IsFill, Filled, Filled-Frame, apply_execution-Keeps}
use itch_lab.QueueModel.Invariant.Crossing.{invalidate_crossed_remainders-Keeps}

-- What the resolver keeps: the book is in order, and there was no KeyError.
abbrev IsResolving : QueueState × Option Failure → Type 0
IsResolving (q, failed) = IsConsistent q.book × (failed ≡ none)

-- The resolver leaves the book as the search for the best opposite price does.
resolver_book :
    (o : SimulatedOrder) (q : QueueState) (failed : Option Failure)
    → (resolver o (q, failed)).1.0.book ≡ (is_marketable o q.book).1
unfolding resolver resolve_activation track
resolver_book o q failed = ground arith

resolver_quiet :
    (o : SimulatedOrder) (q : QueueState) (crossed : Bool)
    → (is_marketable o q.book).0 ≡ some crossed
    → (resolver o (q, none)).1.1 ≡ none
unfolding resolver resolve_activation track
resolver_quiet o q crossed e = ground (arith, e)

resolver-IsResolving :
    (o : SimulatedOrder) (q : QueueState × Option Failure)
    → IsResolving q
    → IsResolving (resolver o q).1
resolver-IsResolving o (q, failed) (c, f) =
    let (k, crossed, e) = book_crosses-IsConsistent o.symbol_id o.side o.price4 q.book c in
    rw f (rw (resolver_book o q none) k, resolver_quiet o q crossed e)

-- The state in which an event is applied: the message is open, and what was due is done.
abbrev pub opened : VisibleQueueModel → ℕ → ℕ → VisibleQueueModel
opened s t m =
    resumed (before_market_event t m (some resolver) (s.state_machine, (s.visible, none))).1 s

-- A call of the machine whose resolver raised no KeyError.
resolver_run :
    {B : Type 0} (m : Action (OrderStateMachine × (QueueState × Option Failure)) B)
    (s : VisibleQueueModel)
    → let r = m (s.state_machine, (s.visible, none)) in
      r.1.1.1 ≡ none → with_resolver m s ≡ (ran r.0, resumed r.1 s)
unfolding with_resolver
resolver_run m s quiet = ground (arith, quiet)

Ends-resolver :
    {A B : Type 0} {E : VisibleQueueModel → Type 0} {Q : A → VisibleQueueModel → Type 0}
    (m : Action (OrderStateMachine × (QueueState × Option Failure)) B)
    (f : B → Method VisibleQueueModel A) (s : VisibleQueueModel)
    → let r = m (s.state_machine, (s.visible, none)) in
      r.1.1.1 ≡ none
      → E (resumed r.1 s)
      → ((b : B) → r.0 ≡ ok b → Ends E Q (f b (resumed r.1 s)))
      → Ends E Q ((with_resolver m >>= f) s)
Ends-resolver {E} m f s quiet e k =
    let r = m (s.state_machine, (s.visible, none)) in
    Ends-bind {Q = λ b u. (r.0 ≡ ok b) × (u ≡ resumed r.1 s)} (with_resolver m) f s
      (subst (Ends E (λ b u. (r.0 ≡ ok b) × (u ≡ resumed r.1 s))) (sym (resolver_run m s quiet))
        (Ends-ran r.0 e (λ b h. (h, refl))))
      λ b u h. rw h.1 (k b h.0)

module _ (s : VisibleQueueModel) (w : IsWithin s) where
  resumed-IsWithin :
      (t : OrderStateMachine × (QueueState × Option Failure))
      → Machine.IsValid t.0
      → IsConsistent t.1.0.book
      → IsWithin (resumed t s)
  resumed-IsWithin t m c = record {
    sound = record { machine = m; book = c; anomalies = w.sound.anomalies };
    budget = w.budget;
  }

  -- The resolver keeps the book in order through a call, and raises no KeyError.
  before-IsResolving :
      (t m : ℕ)
      → IsResolving
          (before_market_event t m (some resolver) (s.state_machine, (s.visible, none))).1.1
  before-IsResolving t m =
      before_market_event_keeps resolver IsResolving resolver-IsResolving t m s.state_machine
        (s.visible, none) (w.sound.book, refl)

  after-IsResolving :
      (t : ℕ)
      → IsResolving
          (after_market_timestamp t (some resolver) (s.state_machine, (s.visible, none))).1.1
  after-IsResolving t =
      after_market_timestamp_keeps resolver IsResolving resolver-IsResolving t s.state_machine
        (s.visible, none) (w.sound.book, refl)

  opened-IsWithin : (t m : ℕ) → IsWithin (opened s t m)
  opened-IsWithin t m =
      resumed-IsWithin
        (before_market_event t m (some resolver) (s.state_machine, (s.visible, none))).1
        (before_market_event-IsValid (some resolver) t m s.state_machine (s.visible, none)
          w.sound.machine)
        (before-IsResolving t m).0

  completed-IsWithin :
      (t : ℕ)
      → IsWithin (
          resumed
            (after_market_timestamp t (some resolver) (s.state_machine, (s.visible, none))).1
            s)
  completed-IsWithin t =
      resumed-IsWithin
        (after_market_timestamp t (some resolver) (s.state_machine, (s.visible, none))).1
        (after_market_timestamp-IsValid (some resolver) t s.state_machine (s.visible, none)
          w.sound.machine)
        (after-IsResolving t).0

  -- The completion of a timestamp on a model within its anomaly budget never fails with a KeyError,
  -- keeps the used matches, and returns and leaves the model within its budget, or raises and leaves
  -- a sound model.
  pub complete_market_timestamp-Keeps :
      (t : ℕ) → Keeps (SameMatches s) (complete_market_timestamp t s)
  unfolding complete_market_timestamp
  complete_market_timestamp-Keeps t =
      Ends-resolver (after_market_timestamp t (some resolver)) _ s (after-IsResolving t).1
        (completed-IsWithin t).sound
        λ ts _.
          Ends-bind _ _ _ (synchronise_transitions-Keeps _ (completed-IsWithin t) ts)
            λ _ u h. Ends-pure ts u (h.0, ap (λ x. x.used_fill_matches) h.1)

  synchronised-Frame : (ts : List OrderTransition) → Keeps (Frame s) (synchronise_transitions ts s)
  synchronised-Frame ts =
      Ends-map (synchronise_transitions-Keeps s w ts) λ _ _ h. (h.0, ground (arith, h.1))

  synchronise_some-Keeps : (t : Option OrderTransition) → Keeps (Frame s) (synchronise_some t s)
  unfolding synchronise_some
  synchronise_some-Keeps none = Ends-pure tt s (w, (refl, refl))
  synchronise_some-Keeps (some t) = synchronised-Frame (t ∷ [])

  quiet-Keeps :
      (e : MarketEvent) (m : Method VisibleQueueModel Bool)
      → Keeps (Frame s) (m s)
      → Keeps (Filled e s) (quiet m s)
  quiet-Keeps e m k = Ends-bind m _ s k λ applied u h. Ends-pure (none, none, applied) u h

module _ (e : MarketEvent) (s : VisibleQueueModel) where
  -- What follows a fill keeps its orders and matches.
  Filled-then :
      (x : Executed) (u v : VisibleQueueModel) → Filled e s x u → Frame u tt v → Filled e s x v
  Filled-then (none, _, _) u v f h = ground (arith, h, f)
  Filled-then (some x, _, _) u v f h = record {
    fresh = f.fresh;
    used = h.1 ∙ f.used;
    matched = f.matched;
    before = f.before;
    after = f.after;
    bounded = f.bounded;
    price = f.price;
    recorded = record {
      order = f.recorded.order;
      found = f.recorded.found;
      exposed = f.recorded.exposed;
      positive = f.recorded.positive;
      bounded = f.recorded.bounded;
      written = ground (arith, h.0, f.recorded.written);
    };
    remaining = f.remaining;
  }

  -- At most one fill, recorded and under a fresh match; the matches used are then those before and
  -- that one.
  abbrev pub Fills : List QueueFill → VisibleQueueModel → Type 0
  Fills [] s' = SameMatches s tt s'
  Fills (f ∷ []) s' = (u : VisibleQueueModel) × IsFill e s u f × SameMatches u tt s'
  Fills (_ ∷ _ ∷ _) s' = ⊥

  Fills-of :
      (x : Executed) (u v : VisibleQueueModel)
      → Filled e s x u
      → SameMatches u tt v
      → Fills (of_option x.0) v
  Fills-of (none, _, _) u v f h = h ∙ f.1
  Fills-of (some x, _, _) u v f h = (u, f, h)

  module _ (w : IsWithin s) where
    execute-Keeps : Keeps (Filled e s) (execute e s)
    unfolding execute
    execute-Keeps = Ends-bind _ _ s (apply_execution-Keeps e s w) λ (fill, t, applied) u h.
        Ends-bind _ _ u (synchronise_some-Keeps u h.0 t)
          λ _ v k. Ends-pure (fill, t, applied) v (k.0, Filled-then (fill, t, applied) u v h.1 k.1)

    apply_event-Keeps : (k : EventKind) → Keeps (Filled e s) (apply_event k e s)
    unfolding apply_event
    apply_event-Keeps EventKind.add = quiet-Keeps s w e _ (apply_add-Keeps s w e)
    apply_event-Keeps EventKind.execute = execute-Keeps
    apply_event-Keeps EventKind.execute_price = execute-Keeps
    apply_event-Keeps EventKind.cancel = quiet-Keeps s w e _ (apply_cancel-Keeps s w e)
    apply_event-Keeps EventKind.delete = quiet-Keeps s w e _ (apply_delete-Keeps s w e)
    apply_event-Keeps EventKind.replace = quiet-Keeps s w e _ (apply_replace-Keeps s w e)
    apply_event-Keeps EventKind.broken_trade =
        Ends-bind _ _ s (apply_broken_trade-Keeps s w e) λ _ u h. Ends-pure (none, none, false) u h
    apply_event-Keeps _ = Ends-pure (none, none, false) s (w, (refl, refl))

    invalidations-Keeps : (applied : Bool) → Keeps (SameMatches s) (invalidations applied e s)
    unfolding invalidations
    invalidations-Keeps false = Ends-pure [] s (w, refl)
    invalidations-Keeps true = Ends-bind _ _ s (invalidate_crossed_remainders-Keeps e s w) λ ts u h.
        Ends-bind _ _ u (synchronised-Frame u h.0 ts) λ _ v k. Ends-pure ts v (k.0, k.1.1 ∙ h.1)

-- The outcome of an event: its own fills, from the state in which it was applied.
abbrev pub Outcome : VisibleQueueModel → QueueEventResult → VisibleQueueModel → Type 0
Outcome s r s' = Fills r.event (opened s r.event.timestamp_ns r.event.message_index) r.fills s'

process_event-Keeps :
    (e : MarketEvent) (s : VisibleQueueModel) → IsWithin s → Keeps (Outcome s) (process_event e s)
unfolding process_event
process_event-Keeps e s w =
    let o = opened s e.timestamp_ns e.message_index in
    let v = opened-IsWithin s w e.timestamp_ns e.message_index in
    Ends-gets _ _ s (
      Ends-resolver (before_market_event e.timestamp_ns e.message_index (some resolver)) _ s
        (before-IsResolving s w e.timestamp_ns e.message_index).1 v.sound
        λ due _. Ends-bind _ _ _ (synchronised-Frame o v due) λ _ s1 h1.
          Ends-bind _ _ s1 (apply_event-Keeps e s1 h1.0 e.event_kind) λ (f, t, applied) s2 h2.
            Ends-bind _ _ s2 (invalidations-Keeps e s2 h2.0 applied) λ crossed s3 h3.
              Ends-gets _ _ s3 (
                Ends-pure _ s3 (
                  h3.0,
                  Fills-of e o (f, t, applied) s2 s3
                      (Filled-Frame e o s1 s2 (f, t, applied) h1.1 h2.1) h3.1,
                )))

-- Whatever the row, one source event on a model within its anomaly budget never fails with a
-- KeyError. It returns and leaves the model within its budget, or raises a SimulationError or a
-- TypeError and leaves a sound model: the machine is valid, the visible book's levels index its
-- orders, its heaps know the prices of the levels, and the anomaly count is the number of skipped
-- events among the diagnostics. When it returns, it has at most one fill: of an order at the front
-- of its queue, at the execution's price, of no more than its quantity and the order's remainder,
-- recorded by the machine, and under a match that was not used before and is the one match used
-- since.
pub process_market_event-Keeps :
    (source : Input) (s : VisibleQueueModel)
    → IsWithin s
    → Keeps (Outcome s) (process_market_event source s)
unfolding process_market_event
process_market_event-Keeps source s w =
    Ends-or_type_error (adapt_market_event source) _ s w.sound λ e. process_event-Keeps e s w
