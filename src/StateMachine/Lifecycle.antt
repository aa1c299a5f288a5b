-- ===== src/StateMachine/Lifecycle.antt =====
-- state_machine.py: how one order may change. The table of the lifecycle is written down apart
-- from the methods, which are then shown to keep to it.
use itch_lab.Base.{
  ◌≡◌, refl, ℕ, ◌≤◌, ◌⊎◌, Bool, true, false, Option, some, inl, inr, nat_eq, arith, if◌then◌else◌,
  ◌||◌,
}
use itch_lab.Base.Dict.{lookup, insert, erase}
use itch_lab.Base.Result.{ok}
use itch_lab.Base.Action.{Raises}
use itch_lab.Order.{
  OrderState, RejectionReason, SimulatedOrder, terminal, request_of, validate_simulated_order,
  is_active, is_partially_filled,
}
use itch_lab.Order.Validity.{IsValid, validate_simulated_order_iff}
use itch_lab.Scheduler.{ScheduledActionKind, schedule}
use itch_lab.StateMachine.{TransitionCause, OrderStateMachine, slot_eq, slot_of, commit, stored}
use itch_lab.StateMachine.Methods.{
  request_cancel, record_fill, reject, invalidate, expire, filled_by, rejected, invalidated, ended,
  cancel_pending, is_exposed,
}
use itch_lab.StateMachine.Actions.{activated}
use itch_lab.StateMachine.Commit.{
  commit_cases, record_fill_at, reject_at, invalidate_at, expire_at, request_cancel_at,
  cancel_state, cancel_action,
}

-- The states that may follow each state.
abbrev pub may_become : OrderState → OrderState → Bool
may_become OrderState.pending_submit OrderState.pending_submit = true
may_become OrderState.pending_submit OrderState.active = true
may_become OrderState.pending_submit OrderState.pending_cancel = true
may_become OrderState.pending_submit OrderState.cancelled = true
may_become OrderState.pending_submit OrderState.rejected = true
may_become OrderState.pending_submit OrderState.expired = true
may_become OrderState.active OrderState.partially_filled = true
may_become OrderState.active OrderState.pending_cancel = true
may_become OrderState.active OrderState.filled = true
may_become OrderState.active OrderState.expired = true
may_become OrderState.active OrderState.invalidated = true
may_become OrderState.partially_filled OrderState.partially_filled = true
may_become OrderState.partially_filled OrderState.pending_cancel = true
may_become OrderState.partially_filled OrderState.filled = true
may_become OrderState.partially_filled OrderState.expired = true
may_become OrderState.partially_filled OrderState.invalidated = true
may_become OrderState.pending_cancel OrderState.pending_cancel = true
may_become OrderState.pending_cancel OrderState.filled = true
may_become OrderState.pending_cancel OrderState.cancelled = true
may_become OrderState.pending_cancel OrderState.expired = true
may_become OrderState.pending_cancel OrderState.invalidated = true
may_become _ _ = false

-- One change of an order: a live order keeps its request and its activation time, takes a state
-- that may follow, and has no more left to fill than before.
pub record Evolves (o a : SimulatedOrder) : Type 0 where
  pub request : request_of a ≡ request_of o
  pub effective : a.effective_timestamp_ns ≡ o.effective_timestamp_ns
  pub live : terminal o ≡ false
  pub follows : may_become o.state a.state ≡ true
  pub remaining : a.remaining_quantity ≤ o.remaining_quantity

-- The call wrote one order of the machine, and released its slot if it finished it.
pub record Written (s s' : OrderStateMachine) : Type 0 where
  pub old : SimulatedOrder
  pub new : SimulatedOrder
  pub found : lookup new.simulated_order_id s.orders ≡ some old
  pub evolves : Evolves old new
  pub valid : IsValid new
  pub orders : s'.orders ≡ insert new.simulated_order_id new s.orders
  pub slots :
      s'.occupied_slots
      ≡ (if terminal new then erase (slot_of new) s.occupied_slots else s.occupied_slots)

-- The scheduler and its actions are as they were.
abbrev pub SameActions : OrderStateMachine → OrderStateMachine → Type 0
SameActions s s' = (s'.scheduler ≡ s.scheduler) × (s'.scheduled_actions ≡ s.scheduled_actions)

module _ (s : OrderStateMachine) (id : ℕ) (o : SimulatedOrder) (e : lookup id s.orders ≡ some o)
    (k : o.simulated_order_id ≡ id) where
  pub stored-Written :
      (a : SimulatedOrder)
      → Evolves o a
      → validate_simulated_order a ≡ ok tt
      → Written s (stored a s)
  stored-Written a v valid = record {
    old = o;
    new = a;
    found = ground (arith, v.request);
    evolves = v;
    valid = (validate_simulated_order_iff a).0 valid;
    orders = refl;
    slots = refl;
  }

  pub commit-Written :
      (a : SimulatedOrder) (c : TransitionCause) (t : ℕ) (m q : Option ℕ)
      (r : Option RejectionReason)
      → Evolves o a
      → Raises s (commit o a c t m q r s)
        ⊎ (Written s (commit o a c t m q r s).1 × SameActions s (commit o a c t m q r s).1)
  commit-Written a c t m q r v = elim (commit_cases o a c t m q r s) [
    | inl h ↦ inl h
    | inr (valid, _, f) ↦ inr (rw f ((stored-Written a v valid, (refl, refl))))
  ]

  filled-Evolves :
      (q t : ℕ) → is_exposed o.state ≡ true → q ≤ o.remaining_quantity → Evolves o (filled_by q t o)
  filled-Evolves q t x h = ground arith

  stopped-Evolves : (t : ℕ) → is_exposed o.state ≡ true → Evolves o (invalidated t o)
  stopped-Evolves t x = ground arith

  pub ended-Evolves : (t : ℕ) → terminal o ≡ false → Evolves o (ended OrderState.expired t o)
  ended-Evolves t x = ground arith

  pub rejected-Evolves : (t : ℕ) → o.state ≡ OrderState.pending_submit → Evolves o (rejected t o)
  rejected-Evolves t x = ground arith

  pub activated-Evolves :
      (q : Option ℕ) → o.state ≡ OrderState.pending_submit → Evolves o (activated q o)
  activated-Evolves q x = ground arith

  pub cancelled-Evolves :
      (t : ℕ)
      → (o.state ≡ OrderState.pending_submit) ⊎ (o.state ≡ OrderState.pending_cancel)
      → Evolves o (ended OrderState.cancelled t o)
  cancelled-Evolves t (inl x) = ground arith
  cancelled-Evolves t (inr x) = ground arith

  cancel_pending-Evolves :
      (t : ℕ)
      → (o.state ≡ OrderState.pending_submit)
        ⊎ (is_active o.state || is_partially_filled o.state ≡ true)
      → Evolves o (cancel_pending t o)
  cancel_pending-Evolves t (inl x) = ground arith
  cancel_pending-Evolves t (inr x) = ground arith

  -- Each method on the order that it finds: it raises and changes nothing, or it writes the order.
  pub record_fill-Written :
      (q t m : ℕ)
      → Raises s (record_fill id q t m s)
        ⊎ (Written s (record_fill id q t m s).1 × SameActions s (record_fill id q t m s).1)
  record_fill-Written q t m = elim (record_fill_at id s o e q t m) [
    | inl h ↦ inl h
    | inr (x, _, h, _, f) ↦ rw f (commit-Written _ _ _ _ _ _ (filled-Evolves q t x h))
  ]

  pub reject-Written :
      (t : ℕ)
      → Raises s (reject id t s) ⊎ (Written s (reject id t s).1 × SameActions s (reject id t s).1)
  reject-Written t = elim (reject_at id s o e t) [
    | inl h ↦ inl h
    | inr (x, _, f) ↦ rw f (commit-Written _ _ _ _ _ _ (rejected-Evolves t x))
  ]

  pub invalidate-Written :
      (t m : ℕ)
      → Raises s (invalidate id t m s)
        ⊎ (Written s (invalidate id t m s).1 × SameActions s (invalidate id t m s).1)
  invalidate-Written t m = elim (invalidate_at id s o e t m) [
    | inl h ↦ inl h
    | inr (x, f) ↦ rw f (commit-Written _ _ _ _ _ _ (stopped-Evolves t x))
  ]

  pub expire-Written :
      (t : ℕ)
      → Raises s (expire id t s) ⊎ (Written s (expire id t s).1 × SameActions s (expire id t s).1)
  expire-Written t = elim (expire_at id s o e t) [
    | inl h ↦ inl h
    | inr (x, _, f) ↦ rw f (commit-Written _ _ _ _ _ _ (ended-Evolves t x))
  ]

  pub request_cancel-Written :
      (t m : ℕ)
      → Raises s (request_cancel id t m s)
        ⊎ (Written s (request_cancel id t m s).1
            × (schedule ScheduledActionKind.cancel id t m s.cancellation_latency_ns s.scheduler
                ≡ (ok (cancel_action id s o e t m), (request_cancel id t m s).1.scheduler))
            × ((request_cancel id t m s).1 ≡ cancel_state id s o e t m))
  request_cancel-Written t m = elim (request_cancel_at id s o e t m) [
    | inl h ↦ inl h
    | inr (x, _, valid, g, _, f) ↦ inr (
        rw f (
          (record {
            old = o;
            new = cancel_pending t o;
            found = ground arith;
            evolves = cancel_pending-Evolves t x;
            valid = (validate_simulated_order_iff (cancel_pending t o)).0 valid;
            orders = rw k;
            slots = ground arith;
          }),
          g,
          refl,
        ))
  ]
