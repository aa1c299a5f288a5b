-- ===== src/Accounting/FillBranches.antt =====
-- accounting.py: the branches of `record_queue_fill`.
use itch_lab.Base.{◌≡◌, ap, ◌⊎◌, inl, inr, ℕ, true, false, arith, nat_eq}
use itch_lab.Base.Result.{Result, ok, err, is_ok}
use itch_lab.Order.{
  SimulatedOrder, validate_simulated_order, validate_order_request, validate_ranges, validate_state,
  request_of,
}
use itch_lab.QueueModel.{QueueFill}
use itch_lab.Accounting.{AccountingLedger, validate_mark_mid2}
use itch_lab.Accounting.Plan.{FillPlan, plan_fill}
use itch_lab.Accounting.Fills.{
  validate_queue_fill, check_sequence, record_queue_fill, filled, accounted,
}
use itch_lab.Accounting.Reconcile.{Quiet, is_invariant, Quiet-bind}
use itch_lab.Errors.{SimulationError}

request-Quiet : (o : SimulatedOrder) → Quiet (validate_order_request (request_of o))
unfolding validate_order_request
request-Quiet o = ground arith

ranges-Quiet : (o : SimulatedOrder) → Quiet (validate_ranges o)
unfolding validate_ranges
ranges-Quiet o = ground arith

state-Quiet : (o : SimulatedOrder) → Quiet (validate_state o)
unfolding validate_state
state-Quiet o = ground arith

order-Quiet : (o : SimulatedOrder) → Quiet (validate_simulated_order o)
unfolding validate_simulated_order
order-Quiet o =
    Quiet-bind (validate_order_request (request_of o)) _ (request-Quiet o)
      λ _ _. Quiet-bind (validate_ranges o) _ (ranges-Quiet o) λ _ _. state-Quiet o

-- A call that leaves the state as it was and raises no invariant error.
abbrev pub Still : {S A : Type 0} → S → Result A × S → Type 0
Still s r = (r.1 ≡ s) × Quiet r.0

-- A call that raised that way, or whose outcome is in `Q`.
abbrev pub Outcome : {S A : Type 0} → S → (Result A × S → Type 0) → Result A × S → Type 0
Outcome s Q r = ((is_ok r.0 ≡ false) × Still s r) ⊎ Q r

pub Still-cases :
    {S A : Type 0} (s : S) (r : Result A × S)
    → Still s r
    → ((a : A) × (r ≡ (ok a, s)))
      ⊎ ((e : SimulationError) × (r ≡ (err e, s)) × (is_invariant e.code ≡ false))
Still-cases s (ok a, t) (e, q) = inl (a, ap (λ t. (ok a, t)) e)
Still-cases s (err x, t) (e, q) = inr (x, ap (λ t. (err x, t)) e, q)

pub queue_fill-Still :
    (f : QueueFill) (o : SimulatedOrder) (s : AccountingLedger)
    → Still s (validate_queue_fill f o s)
unfolding validate_queue_fill
queue_fill-Still f o s = ground (arith, order-Quiet o)

pub sequence-Still :
    (f : QueueFill) (o : SimulatedOrder) (s : AccountingLedger) → Still s (check_sequence f o s)
unfolding check_sequence
sequence-Still f o s = ground arith

pub mark-Quiet : (m : ℕ) → Quiet (validate_mark_mid2 m)
unfolding validate_mark_mid2
mark-Quiet m = ground arith

module _ (f : QueueFill) (o : SimulatedOrder) (mk : ℕ) (s : AccountingLedger) where
  pub record_settled :
      s.settled ≡ true
      → (is_ok (record_queue_fill f o mk s).0 ≡ false) × Still s (record_queue_fill f o mk s)
  unfolding record_queue_fill
  record_settled h = ground arith

  module _ (open_ : s.settled ≡ false) where
    pub record_invalid :
        (e : SimulationError)
        → validate_queue_fill f o s ≡ (err e, s)
        → record_queue_fill f o mk s ≡ (err e, s)
    unfolding record_queue_fill
    record_invalid e h = ground arith

    module _ (u : Unit {0}) (hv : validate_queue_fill f o s ≡ (ok u, s)) where
      pub record_unmarked :
          (e : SimulationError)
          → validate_mark_mid2 mk ≡ err e
          → record_queue_fill f o mk s ≡ (err e, s)
      unfolding record_queue_fill
      record_unmarked e h = ground arith

      module _ (m : ℕ) (hm : validate_mark_mid2 mk ≡ ok m) where
        pub record_unsequenced :
            (e : SimulationError)
            → check_sequence f o s ≡ (err e, s)
            → record_queue_fill f o mk s ≡ (err e, s)
        unfolding record_queue_fill
        record_unsequenced e h = ground arith

        module _ (v : Unit {0}) (hs : check_sequence f o s ≡ (ok v, s)) where
          pub record_unplanned :
              (e : SimulationError)
              → plan_fill s f o m ≡ err e
              → record_queue_fill f o mk s ≡ (err e, s)
          unfolding record_queue_fill
          record_unplanned e h = ground arith

          pub record_planned :
              (p : FillPlan)
              → plan_fill s f o m ≡ ok p
              → record_queue_fill f o mk s ≡ (ok (accounted f p s), filled f o p s)
          unfolding record_queue_fill
          record_planned p h = ground arith
