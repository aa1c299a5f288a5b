-- ===== src/StateMachine/Commit.antt =====
-- state_machine.py: each method raises and changes nothing, or passed its guards and has the
-- effect that is written out.
pub mod Fills
use itch_lab.Base.{ℕ, ◌≤◌, ◌+◌, ◌≡◌, ◌||◌, ◌⊎◌, true, false, Option, some, none, nat_eq, arith}
use itch_lab.Base.Dict.{lookup, insert}
use itch_lab.Base.Result.{ok, is_ok}
use itch_lab.Base.Action.{Raises}
use itch_lab.Order.{
  OrderState, RejectionReason, OrderRequest, SimulatedOrder, terminal, is_active,
  is_partially_filled, validate_simulated_order,
}
use itch_lab.Scheduler.{ScheduledAction, ScheduledActionKind, schedule, scheduled, make_action}
use itch_lab.Scheduler.Cases.{schedule_cases, effective_timestamp_iff}
use itch_lab.StateMachine.{
  TransitionCause, OrderStateMachine, slot_eq, slot_of, order, commit, stored, owns_slot,
  transition, require_current_market_key,
}
use itch_lab.StateMachine.Methods.{
  submit, request_cancel, record_fill, reject, invalidate, expire, pending_order, cancel_pending,
  filled_by, fill_cause, rejected, invalidated, ended, is_exposed,
}

pub commit_cases :
    (b a : SimulatedOrder) (c : TransitionCause) (t : ℕ) (m q : Option ℕ)
    (r : Option RejectionReason) (s : OrderStateMachine)
    → Raises s (commit b a c t m q r s)
      ⊎ ((validate_simulated_order a ≡ ok tt)
          × ((terminal a ≡ false) ⊎ (owns_slot (slot_of a) a.simulated_order_id s ≡ true))
          × (commit b a c t m q r s ≡ (ok (transition b a c t m q r), stored a s)))
unfolding commit
commit_cases b a c t m q r s = ground arith

-- A method finds no order and raises.
module _ (id : ℕ) (s : OrderStateMachine) (e : lookup id s.orders ≡ none) where
  pub request_cancel_none : (t m : ℕ) → Raises s (request_cancel id t m s)
  unfolding request_cancel order
  request_cancel_none t m = ground arith

  pub record_fill_none : (q t m : ℕ) → Raises s (record_fill id q t m s)
  unfolding record_fill order
  record_fill_none q t m = ground arith

  pub reject_none : (t : ℕ) → Raises s (reject id t s)
  unfolding reject order
  reject_none t = ground arith

  pub invalidate_none : (t m : ℕ) → Raises s (invalidate id t m s)
  unfolding invalidate order
  invalidate_none t m = ground arith

  pub expire_none : (t : ℕ) → Raises s (expire id t s)
  unfolding expire order
  expire_none t = ground arith

-- A method finds the order, and raises or goes on to its commit.
module _ (id : ℕ) (s : OrderStateMachine) (o : SimulatedOrder)
    (e : lookup id s.orders ≡ some o) where
  pub record_fill_at :
      (q t m : ℕ)
      → Raises s (record_fill id q t m s)
        ⊎ ((is_exposed o.state ≡ true)
            × (1 ≤ q)
            × (q ≤ o.remaining_quantity)
            × (o.effective_timestamp_ns ≤ t)
            × (record_fill id q t m s
                ≡ commit o (filled_by q t o) (fill_cause q o) t (some m) (some q) none s))
  unfolding record_fill order require_current_market_key
  record_fill_at q t m = ground arith

  pub reject_at :
      (t : ℕ)
      → Raises s (reject id t s)
        ⊎ ((o.state ≡ OrderState.pending_submit)
            × (o.effective_timestamp_ns ≤ t)
            × (reject id t s
                ≡ commit o
                    (rejected t o)
                    TransitionCause.rejected
                    t
                    none
                    none
                    (some RejectionReason.marketable_at_activation)
                    s))
  unfolding reject order
  reject_at t = ground arith

  pub invalidate_at :
      (t m : ℕ)
      → Raises s (invalidate id t m s)
        ⊎ ((is_exposed o.state ≡ true)
            × (invalidate id t m s
                ≡ commit o
                    (invalidated t o)
                    TransitionCause.invalidated
                    t
                    (some m)
                    none
                    (some RejectionReason.counterfactual_cross)
                    s))
  unfolding invalidate order require_current_market_key
  invalidate_at t m = ground arith

  pub expire_at :
      (t : ℕ)
      → Raises s (expire id t s)
        ⊎ ((terminal o ≡ false)
            × (o.requested_timestamp_ns ≤ t)
            × (expire id t s
                ≡ commit o
                    (ended OrderState.expired t o)
                    TransitionCause.expired
                    t
                    none
                    none
                    none
                    s))
  unfolding expire order
  expire_at t = ground arith

  abbrev pub cancel_action : ℕ → ℕ → ScheduledAction
  cancel_action t m =
      make_action ScheduledActionKind.cancel id t m (t + s.cancellation_latency_ns) s.scheduler

  -- The state after a successful cancellation request.
  abbrev pub cancel_state : ℕ → ℕ → OrderStateMachine
  cancel_state t m =
      let a = cancel_action t m in
      record s {
        scheduler = scheduled a s.scheduler;
        orders = insert id (cancel_pending t o) s.orders;
        scheduled_actions = insert a.sequence a s.scheduled_actions;
      }

  pub request_cancel_at :
      (t m : ℕ)
      → Raises s (request_cancel id t m s)
        ⊎ (((o.state ≡ OrderState.pending_submit)
              ⊎ (is_active o.state || is_partially_filled o.state ≡ true))
            × (o.cancel_requested_ns ≡ none)
            × (validate_simulated_order (cancel_pending t o) ≡ ok tt)
            × (schedule ScheduledActionKind.cancel id t m s.cancellation_latency_ns s.scheduler
                ≡ (ok (cancel_action t m), scheduled (cancel_action t m) s.scheduler))
            × (is_ok (request_cancel id t m s).0 ≡ true)
            × ((request_cancel id t m s).1 ≡ cancel_state t m))
  unfolding request_cancel order require_current_market_key
  request_cancel_at t m = ground (
    arith,
    schedule_cases ScheduledActionKind.cancel id t m s.cancellation_latency_ns s.scheduler,
  )

abbrev pub submit_action : OrderRequest → OrderStateMachine → ScheduledAction
submit_action r s =
    make_action ScheduledActionKind.activate r.simulated_order_id r.requested_timestamp_ns
      r.decision_message_index (r.requested_timestamp_ns + s.submission_latency_ns) s.scheduler

-- The state after a successful submission.
abbrev pub submit_state : OrderRequest → OrderStateMachine → OrderStateMachine
submit_state r s =
    let a = submit_action r s in
    record s {
      scheduler = scheduled a s.scheduler;
      orders =
          insert r.simulated_order_id
            (pending_order r (r.requested_timestamp_ns + s.submission_latency_ns)) s.orders;
      occupied_slots = insert (r.symbol_id, r.side) r.simulated_order_id s.occupied_slots;
      scheduled_actions = insert a.sequence a s.scheduled_actions;
    }

pub submit_cases :
    (r : OrderRequest) (s : OrderStateMachine)
    → Raises s (submit r s)
      ⊎ ((lookup r.simulated_order_id s.orders ≡ none)
          × (lookup (r.symbol_id, r.side) s.occupied_slots ≡ none)
          × (validate_simulated_order
                (pending_order r (r.requested_timestamp_ns + s.submission_latency_ns))
              ≡ ok tt)
          × (schedule ScheduledActionKind.activate r.simulated_order_id r.requested_timestamp_ns
                r.decision_message_index s.submission_latency_ns s.scheduler
              ≡ (ok (submit_action r s), scheduled (submit_action r s) s.scheduler))
          × (is_ok (submit r s).0 ≡ true)
          × ((submit r s).1 ≡ submit_state r s))
unfolding submit require_current_market_key
submit_cases r s = ground (
  arith,
  schedule_cases ScheduledActionKind.activate r.simulated_order_id r.requested_timestamp_ns
      r.decision_message_index s.submission_latency_ns s.scheduler,
  effective_timestamp_iff r.requested_timestamp_ns s.submission_latency_ns
      (r.requested_timestamp_ns + s.submission_latency_ns),
)
