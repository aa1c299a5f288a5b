-- ===== src/StateMachine/Actions/Resolved.antt =====
-- state_machine.py: the due actions keep whatever the resolver keeps of its own state.
use itch_lab.Base.{◌≡◌, ◌⊎◌, ℕ, inl, inr, none, some, List, [], ◌∷◌, arith, nat_eq, Option-cases}
use itch_lab.Base.Dict.{lookup}
use itch_lab.Order.{SimulatedOrder}
use itch_lab.Base.Action.{Raises}
use itch_lab.Scheduler.{
  ScheduledAction, ScheduledActionKind, actions_before_market, actions_after_market_timestamp,
}
use itch_lab.Scheduler.Cases.{before_cases, after_cases}
use itch_lab.StateMachine.Actions.Events.{before_ran, after_ran}
use itch_lab.StateMachine.{OrderStateMachine, order}
use itch_lab.StateMachine.Actions.{
  Resolver, resolve, apply_live, apply_action, apply_actions, before_market_event,
  after_market_timestamp,
}

module _ {Q : Type 0} (resolver : Resolver Q) (P : Q → Type 0)
    (keeps : (o : SimulatedOrder) (q : Q) → P q → P (resolver o q).1) where
  apply_live_state :
      (k : ScheduledActionKind) (a : ScheduledAction) (o : SimulatedOrder) (s : OrderStateMachine)
      (q : Q)
      → ((apply_live k a o (some resolver) (s, q)).1.1 ≡ q)
        ⊎ ((apply_live k a o (some resolver) (s, q)).1.1 ≡ (resolver o q).1)
  unfolding apply_live resolve
  apply_live_state ScheduledActionKind.activate a o s q = ground arith
  apply_live_state ScheduledActionKind.cancel a o s q = ground arith

  action_missing :
      (a : ScheduledAction) (s : OrderStateMachine) (q : Q)
      → lookup a.simulated_order_id s.orders ≡ none
      → (apply_action a (some resolver) (s, q)).1.1 ≡ q
  unfolding apply_action order
  action_missing a s q e = ground arith

  action_found :
      (a : ScheduledAction) (s : OrderStateMachine) (q : Q) (o : SimulatedOrder)
      → lookup a.simulated_order_id s.orders ≡ some o
      → ((apply_action a (some resolver) (s, q)).1.1 ≡ q)
        ⊎ ((apply_action a (some resolver) (s, q)).1.1
            ≡ (apply_live a.kind a o (some resolver) (s, q)).1.1)
  unfolding apply_action order
  action_found a s q o e = ground arith

  apply_action_keeps :
      (a : ScheduledAction) (s : OrderStateMachine) (q : Q)
      → P q
      → P (apply_action a (some resolver) (s, q)).1.1
  apply_action_keeps a s q p = elim (Option-cases (lookup a.simulated_order_id s.orders)) [
    | inl e ↦ rw (action_missing a s q e) p
    | inr (o, e) ↦ elim (action_found a s q o e) [
      | inl f ↦ rw f p
      | inr f ↦ elim (apply_live_state a.kind a o s q) [
        | inl g ↦ rw (f, g) p
        | inr g ↦ rw (f, g) (keeps o q p)
      ]
    ]
  ]

  apply_actions_state :
      (a : ScheduledAction) (rest : List ScheduledAction) (s : OrderStateMachine × Q)
      → ((apply_actions (a ∷ rest) (some resolver) s).1 ≡ (apply_action a (some resolver) s).1)
        ⊎ ((apply_actions (a ∷ rest) (some resolver) s).1
            ≡ (apply_actions rest (some resolver) (apply_action a (some resolver) s).1).1)
  unfolding apply_actions
  apply_actions_state a rest s = ground arith

  apply_actions_keeps :
      (out : List ScheduledAction) (s : OrderStateMachine) (q : Q)
      → P q
      → P (apply_actions out (some resolver) (s, q)).1.1
  apply_actions_keeps [] s q p = unfold apply_actions in p
  apply_actions_keeps (a ∷ rest) s q p =
      let (m, q') = (apply_action a (some resolver) (s, q)).1 in
      elim (apply_actions_state a rest (s, q)) [
        | inl e ↦ rw e (apply_action_keeps a s q p)
        | inr e ↦ rw e (apply_actions_keeps rest m q' (apply_action_keeps a s q p))
      ]

  before_raised_state :
      (t m : ℕ) (s : OrderStateMachine) (q : Q)
      → Raises s.scheduler (actions_before_market t m s.scheduler)
      → (before_market_event t m (some resolver) (s, q)).1.1 ≡ q
  unfolding before_market_event
  before_raised_state t m s q h = ground (arith, h)

  after_raised_state :
      (t : ℕ) (s : OrderStateMachine) (q : Q)
      → Raises s.scheduler (actions_after_market_timestamp t s.scheduler)
      → (after_market_timestamp t (some resolver) (s, q)).1.1 ≡ q
  unfolding after_market_timestamp
  after_raised_state t s q h = ground (arith, h)

  pub before_market_event_keeps :
      (t m : ℕ) (s : OrderStateMachine) (q : Q)
      → P q
      → P (before_market_event t m (some resolver) (s, q)).1.1
  before_market_event_keeps t m s q p = elim (before_cases t m s.scheduler) [
    | inl h ↦ rw (before_raised_state t m s q h) p
    | inr (_, _, _, e) ↦ rw (before_ran (some resolver) t m s q e) (apply_actions_keeps _ _ q p)
  ]

  pub after_market_timestamp_keeps :
      (t : ℕ) (s : OrderStateMachine) (q : Q)
      → P q
      → P (after_market_timestamp t (some resolver) (s, q)).1.1
  after_market_timestamp_keeps t s q p = elim (after_cases t s.scheduler) [
    | inl h ↦ rw (after_raised_state t s q h) p
    | inr (_, e) ↦ rw (after_ran (some resolver) t s q e) (apply_actions_keeps _ _ q p)
  ]
