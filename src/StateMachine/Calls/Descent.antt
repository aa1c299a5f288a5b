-- ===== src/StateMachine/Calls/Descent.antt =====
-- state_machine.py: what no sequence of calls can change in an order.
use itch_lab.Base.{
  ◌≡◌, refl, ◌∙◌, subst, ℕ, ◌≤◌, inl, inr, true, some, List, [], ◌∷◌, arith, nat_eq, ◌==◌,
  Bool-cases,
}
use itch_lab.Base.Dict.{lookup, lookup-insert}
use itch_lab.Order.{SimulatedOrder, terminal, request_of}
use itch_lab.StateMachine.{OrderStateMachine}
use itch_lab.StateMachine.Lifecycle.{Evolves, Written}
use itch_lab.StateMachine.Calls.{Call, call, Added, call_outcome}
use itch_lab.StateMachine.Calls.Invariant.{IsValid, run, call-IsValid}

-- A later version of an order: the same request and activation time, no more left to fill, and
-- the same order altogether if it was finished.
pub record Descends (o a : SimulatedOrder) : Type 0 where
  pub request : request_of a ≡ request_of o
  pub effective : a.effective_timestamp_ns ≡ o.effective_timestamp_ns
  pub remaining : a.remaining_quantity ≤ o.remaining_quantity
  pub frozen : terminal o ≡ true → a ≡ o

Descends-refl : (o : SimulatedOrder) → Descends o o
Descends-refl o = record {
  request = refl;
  effective = refl;
  remaining = omega arith;
  frozen = λ _. refl;
}

Descends-trans : (o a b : SimulatedOrder) → Descends o a → Descends a b → Descends o b
Descends-trans o a b d e = record {
  request = e.request ∙ d.request;
  effective = e.effective ∙ d.effective;
  remaining = omega (arith, d.remaining, e.remaining);
  frozen = λ t. ground (arith, d.frozen t, e.frozen);
}

Evolves-Descends : (o a : SimulatedOrder) → Evolves o a → Descends o a
Evolves-Descends o a v = record {
  request = v.request;
  effective = v.effective;
  remaining = v.remaining;
  frozen = λ t. absurd (cc (t, v.live));
}

abbrev pub Keeps : OrderStateMachine → OrderStateMachine → Type 0
Keeps s s' =
    (id : ℕ) (o : SimulatedOrder)
    → lookup id s.orders ≡ some o
    → (a : SimulatedOrder) × (lookup id s'.orders ≡ some a) × Descends o a

module _ (s s' : OrderStateMachine) where
  pub Written-Keeps : Written s s' → Keeps s s'
  Written-Keeps w id o e = elim (Bool-cases (w.new.simulated_order_id == id)) [
    | inl same ↦ (
      w.new,
      rw w.orders (ground (arith, lookup-insert w.new.simulated_order_id id w.new s.orders)),
      subst (λ x. Descends x w.new) (ground (arith, w.found, e))
          (Evolves-Descends w.old w.new w.evolves),
    )
    | inr other ↦ (
      o,
      rw w.orders (ground (arith, e, lookup-insert w.new.simulated_order_id id w.new s.orders)),
      Descends-refl o,
    )
  ]

  Added-Keeps : Added s s' → Keeps s s'
  Added-Keeps w id o e = (
    o,
    rw w.orders
        (ground (arith, e, w.absent, lookup-insert w.new.simulated_order_id id w.new s.orders)),
    Descends-refl o,
  )

pub Keeps-refl : (s : OrderStateMachine) → Keeps s s
Keeps-refl s id o e = (o, e, Descends-refl o)

pub Keeps-trans : (s t u : OrderStateMachine) → Keeps s t → Keeps t u → Keeps s u
Keeps-trans s t u k l id o e =
    let (a, f, d) = k id o e in let (b, g, d') = l id a f in (b, g, Descends-trans o a b d d')

call-Keeps : (c : Call) (s : OrderStateMachine) → IsValid s → Keeps s (call c s).1
call-Keeps c s v = elim (call_outcome s v.book c) [
  | inl h ↦ rw h.1 (Keeps-refl s)
  | inr (inl (w, _)) ↦ Written-Keeps s _ w
  | inr (inr (a, _)) ↦ Added-Keeps s _ a
]

-- No sequence of calls on a valid machine removes an order, changes its request or its activation
-- time, or gives it more to fill; and a finished order stays as it is in every field.
pub run-Keeps :
    (cs : List Call) (s : OrderStateMachine)
    → IsValid s
    → (id : ℕ) (o : SimulatedOrder) → lookup id s.orders ≡ some o
    → (a : SimulatedOrder) × (lookup id (run cs s).orders ≡ some a) × Descends o a
unfolding run
run-Keeps [] s v id o e = Keeps-refl s id o e
run-Keeps (c ∷ cs) s v id o e =
    Keeps-trans s (call c s).1 (run cs (call c s).1) (call-Keeps c s v)
      (run-Keeps cs (call c s).1 (call-IsValid c s v)) id o e
