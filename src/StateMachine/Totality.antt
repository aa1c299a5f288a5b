-- ===== src/StateMachine/Totality.antt =====
-- state_machine.py: on a valid machine the checks inside `_commit` never fail, so a method
-- succeeds as soon as its own guards hold.
use itch_lab.Base.{◌≡◌, refl, ◌∙◌, ℕ, ◌≤◌, true, false, Option, none, some, arith, nat_eq}
use itch_lab.Base.Dict.{lookup}
use itch_lab.Base.Result.{ok}
use itch_lab.Order.{
  OrderState, RejectionReason, SimulatedOrder, terminal, max_timestamp_ns, max_uint64, request_of,
  validate_simulated_order,
}
use itch_lab.Order.Validity as Valid
use itch_lab.Order.Validity.{validate_simulated_order_iff}
use itch_lab.Scheduler.{is_current_key, current_completed}
use itch_lab.StateMachine.{
  TransitionCause, OrderStateMachine, slot_eq, slot_of, order, commit, stored, owns_slot,
  transition, require_current_market_key,
}
use itch_lab.StateMachine.Methods.{record_fill, expire, filled_by, fill_cause, ended, is_exposed}
use itch_lab.StateMachine.Book.{IsBook}

commit_ok :
    (b a : SimulatedOrder) (c : TransitionCause) (t : ℕ) (m q : Option ℕ)
    (r : Option RejectionReason) (s : OrderStateMachine)
    → validate_simulated_order a ≡ ok tt
    → owns_slot (slot_of a) a.simulated_order_id s ≡ true
    → commit b a c t m q r s ≡ (ok (transition b a c t m q r), stored a s)
unfolding commit
commit_ok b a c t m q r s valid owns = ground arith

module _ (s : OrderStateMachine) (id : ℕ) (o : SimulatedOrder)
    (b : IsBook s.orders s.occupied_slots) (e : lookup id s.orders ≡ some o)
    (live : terminal o ≡ false) where
  pub commit_total :
      (a : SimulatedOrder) (c : TransitionCause) (t : ℕ) (m q : Option ℕ)
      (r : Option RejectionReason)
      → request_of a ≡ request_of o
      → Valid.IsValid a
      → commit o a c t m q r s ≡ (ok (transition o a c t m q r), stored a s)
  commit_total a c t m q r same v =
      commit_ok o a c t m q r s ((validate_simulated_order_iff a).1 v)
        (ground (arith, same, b.holds id o e live, b.keyed id o e))

  id_bound : id ≤ max_uint64
  id_bound = ground (arith, b.keyed id o e, (b.valid id o e).request.id_bound)

  filled-IsValid :
      (q t : ℕ)
      → is_exposed o.state ≡ true
      → 1 ≤ q
      → q ≤ o.remaining_quantity
      → o.effective_timestamp_ns ≤ t
      → t ≤ max_timestamp_ns
      → Valid.IsValid (filled_by q t o)
  filled-IsValid q t x q1 q2 t1 t2 =
      let v = b.valid id o e in
      record {
        request = v.request;
        ranges = ground (arith, v.ranges);
        shape = ground (arith, v.shape);
      }

  ended-IsValid :
      (t : ℕ)
      → o.requested_timestamp_ns ≤ t
      → t ≤ max_timestamp_ns
      → Valid.IsValid (ended OrderState.expired t o)
  ended-IsValid t t1 t2 =
      let v = b.valid id o e in
      record {
        request = v.request;
        ranges = ground (arith, v.ranges);
        shape = ground (arith, v.shape);
      }

  record_fill_to_commit :
      (q t m : ℕ)
      → is_current_key t m s.scheduler ≡ true
      → current_completed s.scheduler ≡ false
      → is_exposed o.state ≡ true
      → 1 ≤ q
      → q ≤ o.remaining_quantity
      → o.effective_timestamp_ns ≤ t
      → record_fill id q t m s
        ≡ commit o (filled_by q t o) (fill_cause q o) t (some m) (some q) none s
  unfolding record_fill order require_current_market_key
  record_fill_to_commit q t m key still x q1 q2 t1 = ground (arith, id_bound)

  expire_to_commit :
      (t : ℕ)
      → o.requested_timestamp_ns ≤ t
      → t ≤ max_timestamp_ns
      → expire id t s
        ≡ commit o (ended OrderState.expired t o) TransitionCause.expired t none none none s
  unfolding expire order
  expire_to_commit t t1 t2 = ground (arith, id_bound)

  -- A fill within the guards of `record_fill` commits the order that the fill leaves.
  pub record_fill_total :
      (q t m : ℕ)
      → is_current_key t m s.scheduler ≡ true
      → current_completed s.scheduler ≡ false
      → is_exposed o.state ≡ true
      → 1 ≤ q
      → q ≤ o.remaining_quantity
      → o.effective_timestamp_ns ≤ t
      → t ≤ max_timestamp_ns
      → record_fill id q t m s ≡ (
        ok (transition o (filled_by q t o) (fill_cause q o) t (some m) (some q) none),
        stored (filled_by q t o) s,
      )
  record_fill_total q t m key still x q1 q2 t1 t2 =
      record_fill_to_commit q t m key still x q1 q2 t1
      ∙ commit_total (filled_by q t o) (fill_cause q o) t (some m) (some q) none refl
          (filled-IsValid q t x q1 q2 t1 t2)

  -- An expiry within the guards of `expire` commits the ended order.
  pub expire_total :
      (t : ℕ)
      → o.requested_timestamp_ns ≤ t
      → t ≤ max_timestamp_ns
      → expire id t s ≡ (
        ok (transition o (ended OrderState.expired t o) TransitionCause.expired t none none none),
        stored (ended OrderState.expired t o) s,
      )
  expire_total t t1 t2 =
      expire_to_commit t t1 t2
      ∙ commit_total (ended OrderState.expired t o) TransitionCause.expired t none none none refl
          (ended-IsValid t t1 t2)
