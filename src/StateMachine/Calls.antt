-- ===== src/StateMachine/Calls.antt =====
-- state_machine.py: the methods that callers use, as one call, and their effect on a machine that
-- satisfies the invariant.
pub mod Invariant
pub mod Descent
use itch_lab.Base.{
  ◌≡◌, refl, ℕ, ◌+◌, ◌⊎◌, ◌≤◌, inl, inr, true, false, none, some, arith, nat_eq, Option-cases,
}
use itch_lab.Base.Dict.{lookup, insert}
use itch_lab.Base.Action.{Action, Raises}
use itch_lab.Order.{OrderRequest, SimulatedOrder, terminal}
use itch_lab.Order.Validity.{validate_simulated_order_iff}
use itch_lab.Order.Validity as Valid
use itch_lab.Scheduler.{ScheduledActionKind, ScheduledAction, schedule, scheduled, make_action}
use itch_lab.Base.Result.{ok}
use itch_lab.StateMachine.{OrderTransition, OrderStateMachine, slot_eq, slot_of}
use itch_lab.StateMachine.Methods.{
  submit, request_cancel, record_fill, reject, invalidate, expire, pending_order,
}
use itch_lab.StateMachine.Book.{IsBook}
use itch_lab.StateMachine.Commit.{
  submit_cases, submit_action, cancel_action, request_cancel_none, record_fill_none, reject_none,
  invalidate_none, expire_none,
}
use itch_lab.StateMachine.Lifecycle.{
  Written, SameActions, request_cancel-Written, record_fill-Written, reject-Written,
  invalidate-Written, expire-Written,
}

pub data Call : Type 0 where
  submits : OrderRequest → Call
  cancels : (id timestamp_ns message_index : ℕ) → Call
  fills : (id quantity timestamp_ns message_index : ℕ) → Call
  rejects : (id timestamp_ns : ℕ) → Call
  invalidates : (id timestamp_ns message_index : ℕ) → Call
  expires : (id timestamp_ns : ℕ) → Call

unfoldable pub call : Call → Action OrderStateMachine OrderTransition
call (Call.submits r) = submit r
call (Call.cancels id t m) = request_cancel id t m
call (Call.fills id q t m) = record_fill id q t m
call (Call.rejects id t) = reject id t
call (Call.invalidates id t m) = invalidate id t m
call (Call.expires id t) = expire id t

-- The order that a submission added.
pub record Added (s s' : OrderStateMachine) : Type 0 where
  pub new : SimulatedOrder
  pub absent : lookup new.simulated_order_id s.orders ≡ none
  pub live : terminal new ≡ false
  pub free : lookup (slot_of new) s.occupied_slots ≡ none
  pub valid : Valid.IsValid new
  pub orders : s'.orders ≡ insert new.simulated_order_id new s.orders
  pub slots : s'.occupied_slots ≡ insert (slot_of new) new.simulated_order_id s.occupied_slots

-- The call pushed one action, and noted it under its sequence number.
pub record Pushed (s s' : OrderStateMachine) : Type 0 where
  pub kind : ScheduledActionKind
  pub id : ℕ
  pub requested : ℕ
  pub index : ℕ
  pub latency : ℕ
  pub action : ScheduledAction
  pub numbered : action.sequence ≡ s.scheduler.next_sequence
  pub pushed : schedule kind id requested index latency s.scheduler ≡ (ok action, s'.scheduler)
  pub heap : s'.scheduler ≡ scheduled action s.scheduler
  pub noted : s'.scheduled_actions ≡ insert action.sequence action s.scheduled_actions

-- What a call that did not raise has done.
abbrev pub Done : OrderStateMachine → OrderStateMachine → Type 0
Done s s' = (Written s s' × (SameActions s s' ⊎ Pushed s s')) ⊎ (Added s s' × Pushed s s')

module _ (s : OrderStateMachine) (b : IsBook s.orders s.occupied_slots) where
  submit_outcome : (r : OrderRequest) → Raises s (submit r s) ⊎ Done s (submit r s).1
  submit_outcome r = elim (submit_cases r s) [
    | inl h ↦ inl h
    | inr (absent, free, valid, g, _, f) ↦ inr (
        rw f (
          inr (
            (record {
              new = pending_order r (r.requested_timestamp_ns + s.submission_latency_ns);
              absent = absent;
              live = refl;
              free = free;
              valid = (validate_simulated_order_iff _).0 valid;
              orders = refl;
              slots = refl;
            }),
            (record {
              kind = ScheduledActionKind.activate;
              id = r.simulated_order_id;
              requested = r.requested_timestamp_ns;
              index = r.decision_message_index;
              latency = s.submission_latency_ns;
              action = submit_action r s;
              numbered = refl;
              pushed = g;
              heap = refl;
              noted = refl;
            }),
          )))
  ]

  cancel_outcome :
      (id t m : ℕ) → Raises s (request_cancel id t m s) ⊎ Done s (request_cancel id t m s).1
  cancel_outcome id t m = elim (Option-cases (lookup id s.orders)) [
    | inl e ↦ inl (request_cancel_none id s e t m)
    | inr (o, e) ↦ elim (request_cancel-Written s id o e (b.keyed id o e) t m) [
      | inl h ↦ inl h
      | inr (w, g, f) ↦ inr (
          inl (
            w,
            inr (record {
              kind = ScheduledActionKind.cancel;
              id = id;
              requested = t;
              index = m;
              latency = s.cancellation_latency_ns;
              action = cancel_action id s o e t m;
              numbered = refl;
              pushed = g;
              heap = rw f;
              noted = rw f;
            }),
          ))
    ]
  ]

  fill_outcome :
      (id q t m : ℕ) → Raises s (record_fill id q t m s) ⊎ Done s (record_fill id q t m s).1
  fill_outcome id q t m = elim (Option-cases (lookup id s.orders)) [
    | inl e ↦ inl (record_fill_none id s e q t m)
    | inr (o, e) ↦ elim (record_fill-Written s id o e (b.keyed id o e) q t m) [
      | inl h ↦ inl h
      | inr (w, a) ↦ inr (inl (w, inl a))
    ]
  ]

  reject_outcome : (id t : ℕ) → Raises s (reject id t s) ⊎ Done s (reject id t s).1
  reject_outcome id t = elim (Option-cases (lookup id s.orders)) [
    | inl e ↦ inl (reject_none id s e t)
    | inr (o, e) ↦ elim (reject-Written s id o e (b.keyed id o e) t) [
      | inl h ↦ inl h
      | inr (w, a) ↦ inr (inl (w, inl a))
    ]
  ]

  invalidate_outcome :
      (id t m : ℕ) → Raises s (invalidate id t m s) ⊎ Done s (invalidate id t m s).1
  invalidate_outcome id t m = elim (Option-cases (lookup id s.orders)) [
    | inl e ↦ inl (invalidate_none id s e t m)
    | inr (o, e) ↦ elim (invalidate-Written s id o e (b.keyed id o e) t m) [
      | inl h ↦ inl h
      | inr (w, a) ↦ inr (inl (w, inl a))
    ]
  ]

  expire_outcome : (id t : ℕ) → Raises s (expire id t s) ⊎ Done s (expire id t s).1
  expire_outcome id t = elim (Option-cases (lookup id s.orders)) [
    | inl e ↦ inl (expire_none id s e t)
    | inr (o, e) ↦ elim (expire-Written s id o e (b.keyed id o e) t) [
      | inl h ↦ inl h
      | inr (w, a) ↦ inr (inl (w, inl a))
    ]
  ]

  pub call_outcome : (c : Call) → Raises s (call c s) ⊎ Done s (call c s).1
  unfolding call
  call_outcome (Call.submits r) = submit_outcome r
  call_outcome (Call.cancels id t m) = cancel_outcome id t m
  call_outcome (Call.fills id q t m) = fill_outcome id q t m
  call_outcome (Call.rejects id t) = reject_outcome id t
  call_outcome (Call.invalidates id t m) = invalidate_outcome id t m
  call_outcome (Call.expires id t) = expire_outcome id t
