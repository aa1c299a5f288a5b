-- ===== src/StateMachine/Commit/Fills.antt =====
-- state_machine.py: a fill that was recorded, seen from outside.
use itch_lab.Base.{◌≡◌, ◌≤◌, ℕ, true, none, some, arith, nat_eq, Option-cases, inl, inr}
use itch_lab.Base.Dict.{lookup, lookup-insert}
use itch_lab.Base.Result.{ok}
use itch_lab.Order.{SimulatedOrder}
use itch_lab.StateMachine.{OrderTransition, OrderStateMachine}
use itch_lab.StateMachine.Methods.{record_fill, filled_by, fill_cause, is_exposed}
use itch_lab.StateMachine.Commit.{commit_cases, record_fill_none, record_fill_at}

-- The order whose fill was recorded, before and after.
pub record Recorded (id q t : ℕ) (s s' : OrderStateMachine) : Type 0 where
  pub order : SimulatedOrder
  pub found : lookup id s.orders ≡ some order
  pub exposed : is_exposed order.state ≡ true
  pub positive : 1 ≤ q
  pub bounded : q ≤ order.remaining_quantity
  pub written : lookup id s'.orders ≡ some (filled_by q t order)

pub record_fill-Recorded :
    (id q t m : ℕ) (s : OrderStateMachine) (x : OrderTransition)
    → ((o : SimulatedOrder) → lookup id s.orders ≡ some o → o.simulated_order_id ≡ id)
    → (record_fill id q t m s).0 ≡ ok x
    → Recorded id q t s (record_fill id q t m s).1
record_fill-Recorded id q t m s x keyed h = elim (Option-cases (lookup id s.orders)) [
  | inl n ↦ absurd (ground (arith, record_fill_none id s n q t m, h))
  | inr (o, e) ↦ elim (record_fill_at id s o e q t m) [
    | inl r ↦ absurd (ground (arith, r, h))
    | inr (ex, q1, q2, _, f) ↦
        elim (commit_cases o (filled_by q t o) (fill_cause q o) t (some m) (some q) none s) [
          | inl r ↦ absurd (ground (arith, r, h, f))
          | inr (_, _, g) ↦ record {
            order = o;
            found = e;
            exposed = ex;
            positive = q1;
            bounded = q2;
            written = ground (
              arith,
              f,
              g,
              keyed o e,
              lookup-insert o.simulated_order_id id (filled_by q t o) s.orders,
            );
          }
        ]
  ]
]
