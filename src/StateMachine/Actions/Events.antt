-- ===== src/StateMachine/Actions/Events.antt =====
-- state_machine.py: opening a market message and completing a timestamp, with any resolver, on
-- every branch.
use itch_lab.Base.{◌≡◌, ℕ, inl, inr, true, false, Option, some, arith, nat_eq}
use itch_lab.Base.Dict.{lookup}
use itch_lab.Base.Result.{ok}
use itch_lab.Base.Action.{Raises}
use itch_lab.Order.{SimulatedOrder}
use itch_lab.Scheduler.{
  pop_due, opened, completed, actions_before_market, actions_after_market_timestamp,
}
use itch_lab.Scheduler.Cases.{before_cases, after_cases}
use itch_lab.Scheduler.Invariant.{
  actions_before_market-IsValid, actions_after_market_timestamp-IsValid,
}
use itch_lab.StateMachine.{OrderStateMachine}
use itch_lab.StateMachine.Calls.Invariant.{IsValid}
use itch_lab.StateMachine.Calls.Descent.{Keeps, Keeps-refl}
use itch_lab.StateMachine.Actions.{
  Resolver, apply_actions, before_market_event, after_market_timestamp,
}
use itch_lab.StateMachine.Calls.Descent.{Descends}
use itch_lab.StateMachine.Actions.Run.{opened-Holding, completed-Holding, apply_actions-IsValid}

module _ {Q : Type 0} (resolver : Option (Resolver Q)) where
  before_raised :
      (t m : ℕ) (s : OrderStateMachine) (q : Q)
      → Raises s.scheduler (actions_before_market t m s.scheduler)
      → (before_market_event t m resolver (s, q)).1.0 ≡ s
  unfolding before_market_event
  before_raised t m s q h = ground (arith, h)

  pub before_ran :
      (t m : ℕ) (s : OrderStateMachine) (q : Q)
      → actions_before_market t m s.scheduler
        ≡ (ok (pop_due t false s.scheduler.heap).0, opened t m s.scheduler)
      → before_market_event t m resolver (s, q)
        ≡ apply_actions
            (pop_due t false s.scheduler.heap).0
            resolver
            (record s { scheduler = opened t m s.scheduler }, q)
  unfolding before_market_event
  before_ran t m s q h = ground arith

  after_raised :
      (t : ℕ) (s : OrderStateMachine) (q : Q)
      → Raises s.scheduler (actions_after_market_timestamp t s.scheduler)
      → (after_market_timestamp t resolver (s, q)).1.0 ≡ s
  unfolding after_market_timestamp
  after_raised t s q h = ground (arith, h)

  pub after_ran :
      (t : ℕ) (s : OrderStateMachine) (q : Q)
      → actions_after_market_timestamp t s.scheduler
        ≡ (ok (pop_due t true s.scheduler.heap).0, completed t s.scheduler)
      → after_market_timestamp t resolver (s, q)
        ≡ apply_actions
            (pop_due t true s.scheduler.heap).0
            resolver
            (record s { scheduler = completed t s.scheduler }, q)
  unfolding after_market_timestamp
  after_ran t s q h = ground arith

  before_market_event_outcome :
      (t m : ℕ) (s : OrderStateMachine) (q : Q)
      → IsValid s
      → IsValid (before_market_event t m resolver (s, q)).1.0
        × Keeps s (before_market_event t m resolver (s, q)).1.0
  before_market_event_outcome t m s q v = elim (before_cases t m s.scheduler) [
    | inl h ↦ rw (before_raised t m s q h) (v, Keeps-refl s)
    | inr (_, _, _, e) ↦ rw (before_ran t m s q e) (
        apply_actions-IsValid resolver _ _ q (
          opened-Holding s t m v
            (rw e at (actions_before_market-IsValid s.scheduler v.scheduler t m))))
  ]

  after_market_timestamp_outcome :
      (t : ℕ) (s : OrderStateMachine) (q : Q)
      → IsValid s
      → IsValid (after_market_timestamp t resolver (s, q)).1.0
        × Keeps s (after_market_timestamp t resolver (s, q)).1.0
  after_market_timestamp_outcome t s q v = elim (after_cases t s.scheduler) [
    | inl h ↦ rw (after_raised t s q h) (v, Keeps-refl s)
    | inr (_, e) ↦ rw (after_ran t s q e) (
        apply_actions-IsValid resolver _ _ q (
          completed-Holding s t v
            (rw e at (actions_after_market_timestamp-IsValid s.scheduler v.scheduler t))))
  ]

  -- Opening a market message on a valid machine leaves a valid machine, for every resolver, whether the call
  -- returns or raises.
  pub before_market_event-IsValid :
      (t m : ℕ) (s : OrderStateMachine) (q : Q)
      → IsValid s
      → IsValid (before_market_event t m resolver (s, q)).1.0
  before_market_event-IsValid t m s q v = (before_market_event_outcome t m s q v).0

  -- Opening a market message on a valid machine keeps every order as a later version of itself: the same
  -- request and activation time, no more left to fill, and no change at all if it was finished.
  pub before_market_event-Keeps :
      (t m : ℕ) (s : OrderStateMachine) (q : Q)
      → IsValid s
      → (id : ℕ) (o : SimulatedOrder) → lookup id s.orders ≡ some o
      → (a : SimulatedOrder) × (lookup id (before_market_event t m resolver (s, q)).1.0.orders
          ≡ some a)
        × Descends o a
  before_market_event-Keeps t m s q v id o e = (before_market_event_outcome t m s q v).1 id o e

  -- Completing a timestamp on a valid machine leaves a valid machine, for every resolver, whether the call
  -- returns or raises.
  pub after_market_timestamp-IsValid :
      (t : ℕ) (s : OrderStateMachine) (q : Q)
      → IsValid s
      → IsValid (after_market_timestamp t resolver (s, q)).1.0
  after_market_timestamp-IsValid t s q v = (after_market_timestamp_outcome t s q v).0

  -- Completing a timestamp on a valid machine keeps every order as a later version of itself: the same
  -- request and activation time, no more left to fill, and no change at all if it was finished.
  pub after_market_timestamp-Keeps :
      (t : ℕ) (s : OrderStateMachine) (q : Q)
      → IsValid s
      → (id : ℕ) (o : SimulatedOrder) → lookup id s.orders ≡ some o
      → (a : SimulatedOrder) × (lookup id (after_market_timestamp t resolver (s, q)).1.0.orders
          ≡ some a)
        × Descends o a
  after_market_timestamp-Keeps t s q v id o e = (after_market_timestamp_outcome t s q v).1 id o e
