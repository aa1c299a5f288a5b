-- ===== src/StateMachine/Effects.antt =====
-- state_machine.py: what a fill and an expiry do, field by field.
use itch_lab.Base.{
  ◌≡◌, ◌≢◌, refl, ℕ, ◌+◌, ◌≤◌, true, false, none, some, arith, nat_eq, eqb, if◌then◌else◌,
}
use itch_lab.Base.Dict.{lookup, lookup-insert, lookup-erase}
use itch_lab.Base.Result.{Result, ok}
use itch_lab.Order.{OrderState, SimulatedOrder, terminal, max_timestamp_ns, is_pending_cancel}
use itch_lab.Scheduler.{is_current_key, current_completed}
use itch_lab.StateMachine.{
  Slot, TransitionCause, OrderTransition, OrderStateMachine, slot_eq, slot_of, eqb_slot_iff, stored,
}
use itch_lab.StateMachine.Methods.{record_fill, expire, filled_by, ended, is_exposed}
use itch_lab.StateMachine.Book.{IsBook}
use itch_lab.StateMachine.Totality.{record_fill_total, expire_total}

-- The order of the identifier became `a`. It keeps its slot while it is live, and frees it when it
-- is finished; the other orders and slots and the scheduler are as they were.
pub record Became (id : ℕ) (a : SimulatedOrder) (s s' : OrderStateMachine) : Type 0 where
  pub written : lookup id s'.orders ≡ some a
  pub others : (j : ℕ) → id ≢ j → lookup j s'.orders ≡ lookup j s.orders
  pub slot : lookup (slot_of a) s'.occupied_slots ≡ (if terminal a then none else some id)
  pub slots : (k : Slot) → slot_of a ≢ k → lookup k s'.occupied_slots ≡ lookup k s.occupied_slots
  pub scheduler : s'.scheduler ≡ s.scheduler
  pub actions : s'.scheduled_actions ≡ s.scheduled_actions

-- The order after a fill of a part: the remainder falls by the quantity; with nothing left it is
-- filled, at that time, and otherwise it stays pending cancellation or is partially filled.
pub record IsFilled (q t : ℕ) (o a : SimulatedOrder) : Type 0 where
  pub falls : a.remaining_quantity + q ≡ o.remaining_quantity
  pub done :
      a.remaining_quantity ≡ 0 → (a.state ≡ OrderState.filled) × (a.terminal_timestamp_ns ≡ some t)
  pub pending :
      1 ≤ a.remaining_quantity
      → is_pending_cancel o.state ≡ true
      → (a.state ≡ OrderState.pending_cancel) × (a.terminal_timestamp_ns ≡ none)
  pub partial :
      1 ≤ a.remaining_quantity
      → is_pending_cancel o.state ≡ false
      → (a.state ≡ OrderState.partially_filled) × (a.terminal_timestamp_ns ≡ none)
  pub rest : a ≡ (record o {
    remaining_quantity = a.remaining_quantity;
    state = a.state;
    terminal_timestamp_ns = a.terminal_timestamp_ns;
  })

-- The transition of a fill.
pub record IsFillTransition (id q t m : ℕ) (o a : SimulatedOrder) (x : OrderTransition)
    : Type 0 where
  pub order : x.simulated_order_id ≡ id
  pub before : x.before_state ≡ some o.state
  pub after : x.after_state ≡ a.state
  pub cause : x.cause ≡ (
      if eqb a.remaining_quantity 0 then TransitionCause.filled else TransitionCause.partial_fill)
  pub time : x.timestamp_ns ≡ t
  pub message : x.market_message_index ≡ some m
  pub quantity : x.quantity ≡ some q
  pub reason : x.rejection_reason ≡ none

-- The fill was recorded.
pub record FillRecorded (id q t m : ℕ) (o : SimulatedOrder) (s : OrderStateMachine)
    (r : Result OrderTransition × OrderStateMachine) : Type 0 where
  pub order : SimulatedOrder
  pub transition : OrderTransition
  pub returned : r.0 ≡ ok transition
  pub told : IsFillTransition id q t m o order transition
  pub filled : IsFilled q t o order
  pub became : Became id order s r.1

-- The order expired: only its state and its terminal time changed, and its slot is free.
pub record Expired (id t : ℕ) (o : SimulatedOrder) (s : OrderStateMachine)
    (r : Result OrderTransition × OrderStateMachine) : Type 0 where
  pub returned :
      r.0
      ≡ ok (record {
        simulated_order_id = id;
        before_state = some o.state;
        after_state = OrderState.expired;
        cause = TransitionCause.expired;
        timestamp_ns = t;
        market_message_index = none;
        quantity = none;
        rejection_reason = none;
      })
  pub became :
      Became id (record o { state = OrderState.expired; terminal_timestamp_ns = some t }) s r.1
  pub free : lookup (slot_of o) r.1.occupied_slots ≡ none

module _ (s : OrderStateMachine) (id : ℕ) (o : SimulatedOrder)
    (b : IsBook s.orders s.occupied_slots) (e : lookup id s.orders ≡ some o)
    (live : terminal o ≡ false) where
  stored-Became :
      (a : SimulatedOrder)
      → a.simulated_order_id ≡ id
      → slot_of a ≡ slot_of o
      → Became id a s (stored a s)
  stored-Became a k same = record {
    written = ground (arith, k, lookup-insert a.simulated_order_id id a s.orders);
    others = λ j n. ground (arith, k, n, lookup-insert a.simulated_order_id j a s.orders);
    slot = ground (
      arith,
      same,
      b.holds id o e live,
      lookup-erase (slot_of a) (slot_of a) s.occupied_slots,
      eqb_slot_iff (slot_of a) (slot_of a),
    );
    slots = λ k n.
        ground (arith, n, lookup-erase (slot_of a) k s.occupied_slots, eqb_slot_iff (slot_of a) k);
    scheduler = refl;
    actions = refl;
  }

  filled_by-IsFilled :
      (q t : ℕ) → 1 ≤ q → q ≤ o.remaining_quantity → IsFilled q t o (filled_by q t o)
  filled_by-IsFilled q t q1 q2 = record {
    falls = omega (arith, q2);
    done = λ z. ground (arith, z);
    pending = λ z p. ground (arith, z, p);
    partial = λ z p. ground (arith, z, p);
    rest = refl;
  }

  -- On a book in order, a fill of a live, exposed order in the open market message, of a positive
  -- quantity up to its remainder, not before its activation time and within the day, is recorded.
  -- The remainder falls by the quantity; with nothing left the order is filled and its slot is free,
  -- and otherwise it keeps its slot and stays pending cancellation or is partially filled. The
  -- transition says so, and the other orders and slots and the scheduler are as they were.
  pub record_fill-FillRecorded :
      (q t m : ℕ)
      → is_current_key t m s.scheduler ≡ true
      → current_completed s.scheduler ≡ false
      → is_exposed o.state ≡ true
      → 1 ≤ q
      → q ≤ o.remaining_quantity
      → o.effective_timestamp_ns ≤ t
      → t ≤ max_timestamp_ns
      → FillRecorded id q t m o s (record_fill id q t m s)
  record_fill-FillRecorded q t m key still x q1 q2 t1 t2 =
      rw (record_fill_total s id o b e live q t m key still x q1 q2 t1 t2) (record {
        order = filled_by q t o;
        transition = _;
        returned = refl;
        told = record {
          order = b.keyed id o e;
          before = refl;
          after = refl;
          cause = ground arith;
          time = refl;
          message = refl;
          quantity = refl;
          reason = refl;
        };
        filled = filled_by-IsFilled q t q1 q2;
        became = stored-Became (filled_by q t o) (b.keyed id o e) refl;
      })

  -- On a book in order, every live order expires at any time of the day from its request on: of the
  -- order only its state and its terminal time change, its slot is free, and the other orders and
  -- slots and the scheduler are as they were.
  pub expire-Expired :
      (t : ℕ)
      → o.requested_timestamp_ns ≤ t
      → t ≤ max_timestamp_ns
      → Expired id t o s (expire id t s)
  expire-Expired t t1 t2 =
      let c = stored-Became (ended OrderState.expired t o) (b.keyed id o e) refl in
      rw (expire_total s id o b e live t t1 t2)
        (record { returned = ground (arith, b.keyed id o e); became = c; free = c.slot })
