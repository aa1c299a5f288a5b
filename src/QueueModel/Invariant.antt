-- ===== src/QueueModel/Invariant.antt =====
-- queue_model.py: the invariant of the queue model, and the steps that its handlers share.
pub mod Handlers
pub mod Execution
pub mod Crossing
pub mod Process
use itch_lab.Base.{
  ◌≡◌, refl, sym, ◌≤◌, ◌+◌, ℕ, Bool, true, false, Option, none, some, List, [], ◌∷◌, ◌++◌, arith,
  eqb, ltb, nat_eq, Bool-cases, Option-cases, inl, inr, if◌then◌else◌, leb,
}
use itch_lab.Base.Int.{ℤ}
use itch_lab.Base.Dict.{Dict, lookup}
use itch_lab.QueueModel.Tracker.{TrackedQueue}
use itch_lab.Base.Result.{ok}
use itch_lab.Order.{SimulatedOrder, max_uint64}
use itch_lab.StateMachine.{OrderTransition, OrderStateMachine, order}
use itch_lab.StateMachine.Calls.Invariant as Machine
use itch_lab.MarketEvents.{MarketEvent}
use itch_lab.QueueModel.Book.{VisibleOrder, VisibleBook}
use itch_lab.QueueModel.Consistent.{IsConsistent, empty_book-IsConsistent}
use itch_lab.QueueModel.Method.{
  Ran, Method, ◌>>=◌, gets, pure, Ends, returns, raises, Ends-bind, Ends-gets, Ends-pure, Ends-if,
  Ends-at_part, modify, Ends-map,
}
use itch_lab.QueueModel.Model.{
  QueueDiagnosticCode, QueueAnomalyReason, QueueDiagnostic, VisibleQueueModel, initial_model,
  put_machine, put_book, put_queues, on_machine, counted, noted, record_anomaly, skip, cast,
  same_side, differs, validated_existing_order, synchronise_transitions, synchronised, anomaly_of,
}

-- How many events were skipped.
abbrev pub skipped : List QueueDiagnostic → ℕ
skipped [] = 0
skipped (d ∷ ds) = elim d.code [ QueueDiagnosticCode.event_skipped ↦ 1 | _ ↦ 0 ] + skipped ds

pub skipped-append : (ds es : List QueueDiagnostic) → skipped (ds ++ es) ≡ skipped ds + skipped es
skipped-append [] es = omega arith
skipped-append (d ∷ ds) es = omega (arith, skipped-append ds es)

-- The machine and the visible book are valid, and the anomalies are the skipped events.
pub record IsSound (s : VisibleQueueModel) : Type 0 where
  pub machine : Machine.IsValid s.state_machine
  pub book : IsConsistent s.visible.book
  pub anomalies : s.anomaly_count ≡ skipped s.diagnostics

-- And the budget is kept.
pub record IsWithin (s : VisibleQueueModel) : Type 0 where
  pub sound : IsSound s
  pub budget : s.anomaly_count ≤ s.max_queue_anomalies

pub initial_model-IsWithin :
    (m : OrderStateMachine) (n : ℕ) → Machine.IsValid m → IsWithin (initial_model m n)
initial_model-IsWithin m n v = record {
  sound = record { machine = v; book = empty_book-IsConsistent; anomalies = refl };
  budget = omega arith;
}

-- A run that keeps the invariant, and raises when it leaves the budget.
abbrev pub Keeps :
    {A : Type 0} → (A → VisibleQueueModel → Type 0) → Ran A × VisibleQueueModel → Type 0
Keeps Q = Ends IsSound λ a s. IsWithin s × Q a s

-- The machine and the used matches are as they were.
abbrev pub Frame : VisibleQueueModel → {A : Type 0} → A → VisibleQueueModel → Type 0
Frame s a s' = (s'.state_machine ≡ s.state_machine) × (s'.used_fill_matches ≡ s.used_fill_matches)

-- The used matches are as they were.
abbrev pub SameMatches : VisibleQueueModel → {A : Type 0} → A → VisibleQueueModel → Type 0
SameMatches s a s' = s'.used_fill_matches ≡ s.used_fill_matches

pub order_state : (id : ℕ) (m : OrderStateMachine) → (order id m).1 ≡ m
unfolding order
order_state id m = ground arith

pub order_ok :
    (id : ℕ) (m : OrderStateMachine) (o : SimulatedOrder)
    → (order id m).0 ≡ ok o
    → lookup id m.orders ≡ some o
unfolding order
order_ok id m o e = ground (arith, e)

module _ (s : VisibleQueueModel) (w : IsWithin s) where
  counted-IsSound :
      (e : MarketEvent) (r : QueueAnomalyReason) (id : Option ℕ) → IsSound (counted e r id s)
  counted-IsSound e r id = record {
    machine = w.sound.machine;
    book = w.sound.book;
    anomalies =
        ground (arith, skipped-append s.diagnostics (anomaly_of e r id ∷ []), w.sound.anomalies);
  }

  -- An anomaly changes the diagnostics and the count only.
  pub record_anomaly-Keeps :
      (e : MarketEvent) (r : QueueAnomalyReason) (id : Option ℕ)
      → Keeps (λ _ s'. s' ≡ counted e r id s) (record_anomaly e r id s)
  unfolding record_anomaly
  record_anomaly-Keeps e r id =
      elim (Bool-cases (ltb s.max_queue_anomalies (s.anomaly_count + 1))) [
        | inl over ↦ rw over (raises (counted-IsSound e r id))
        | inr under ↦ rw under (
            returns
              (record { sound = counted-IsSound e r id; budget = ground (arith, under) }, refl))
      ]

  pub skip-Keeps :
      {A : Type 0} (e : MarketEvent) (r : QueueAnomalyReason) (id : Option ℕ) (a : A)
      → Keeps (λ b s'. (b ≡ a) × (s' ≡ counted e r id s)) (skip e r id a s)
  unfolding skip
  skip-Keeps e r id a =
      Ends-bind _ _ s (record_anomaly-Keeps e r id) λ _ s' (w', h). Ends-pure a s' (w', (refl, h))

  -- A skipped event changes no more.
  pub skipped-Frame :
      (e : MarketEvent) (r : QueueAnomalyReason) (id : Option ℕ) (s' : VisibleQueueModel)
      → s' ≡ counted e r id s
      → Frame s tt s'
  skipped-Frame e r id s' h = ground arith

  -- What a search for the event's order has found.
  abbrev pub Found : MarketEvent → Option VisibleOrder → VisibleQueueModel → Type 0
  Found e none s' = Frame s tt s'
  Found e (some v) s' =
      (s' ≡ s)
      × (lookup v.reference s.visible.book.orders ≡ some v)
      × (v.symbol_id ≡ e.symbol_id)
      × (same_side v.side e.side ≡ true)
      × (e.price4 ≡ some v.price4)

  known_order :
      (e : MarketEvent) (v : VisibleOrder)
      → lookup (cast e.primary_reference) s.visible.book.orders ≡ some v
      → Keeps (Found e) (validated_existing_order e s)
  unfolding validated_existing_order
  known_order e v f = Ends-gets _ _ s (
      rw f (
        Ends-if (differs e v) _ _ s
          (λ _.
            Ends-map (skip-Keeps e _ none none)
              λ a s' h. (h.0, rw h.1.0 (skipped-Frame e _ none s' h.1.1)))
          (λ n. Ends-pure (some v) s (
            w,
            (
              refl,
              ground (arith, w.sound.book.keyed (cast e.primary_reference) v f, f),
              ground (arith, n),
              ground (arith, n),
              ground (arith, n),
            ),
          ))))

  pub validated_existing_order-Keeps :
      (e : MarketEvent) → Keeps (Found e) (validated_existing_order e s)
  validated_existing_order-Keeps e =
      elim (Option-cases (lookup (cast e.primary_reference) s.visible.book.orders)) [
        | inl n ↦
            unfold validated_existing_order in
            Ends-gets _ _ s (
              rw n (
                Ends-map (skip-Keeps e _ none none)
                  λ a s' h. (h.0, rw h.1.0 (skipped-Frame e _ none s' h.1.1))))
        | inr (v, f) ↦ known_order e v f
      ]

  -- A look at an order, which changes nothing.
  pub order-Keeps :
      {B : Type 0} {R : B → VisibleQueueModel → Type 0} (id : ℕ)
      (f : SimulatedOrder → Method VisibleQueueModel B)
      → ((o : SimulatedOrder) → lookup id s.state_machine.orders ≡ some o → Keeps R (f o s))
      → Keeps R ((on_machine (order id) >>= f) s)
  order-Keeps id f k =
      Ends-at_part _ _ (order id) f s (rw (order_state id s.state_machine) w.sound)
        λ o e. rw (order_state id s.state_machine) (k o (order_ok id s.state_machine o e))

  -- A new state of the machine.
  pub put_machine-IsWithin :
      (m : OrderStateMachine) → Machine.IsValid m → IsWithin (put_machine m s)
  put_machine-IsWithin m v = record {
    sound = record { machine = v; book = w.sound.book; anomalies = w.sound.anomalies };
    budget = w.budget;
  }

  pub put_book-IsWithin : (b : VisibleBook) → IsConsistent b → IsWithin (put_book b s)
  put_book-IsWithin b c = record {
    sound = record { machine = w.sound.machine; book = c; anomalies = w.sound.anomalies };
    budget = w.budget;
  }

  pub put_queues-IsWithin : (d : Dict ℕ TrackedQueue) → IsWithin (put_queues d s)
  put_queues-IsWithin d = record {
    sound = record {
      machine = w.sound.machine;
      book = w.sound.book;
      anomalies = w.sound.anomalies;
    };
    budget = w.budget;
  }

  -- A diagnostic that is no anomaly.
  pub noted-IsWithin : (d : QueueDiagnostic) → skipped (d ∷ []) ≡ 0 → IsWithin (noted d s)
  noted-IsWithin d z = record {
    sound = record {
      machine = w.sound.machine;
      book = w.sound.book;
      anomalies = ground (arith, skipped-append s.diagnostics (d ∷ []), w.sound.anomalies, z);
    };
    budget = w.budget;
  }

  pub synchronise_transitions-Keeps :
      (ts : List OrderTransition)
      → Keeps
          (λ _ s'. s' ≡ put_queues (synchronised ts s.visible.queues) s)
          (synchronise_transitions ts s)
  unfolding synchronise_transitions modify
  synchronise_transitions-Keeps ts = returns (put_queues-IsWithin _, refl)
