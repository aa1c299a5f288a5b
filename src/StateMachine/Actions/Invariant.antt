-- ===== src/StateMachine/Actions/Invariant.antt =====
-- state_machine.py: the scheduled actions keep the invariant and the orders' history, whatever the
-- resolver does, also where an action in the middle raises.
use itch_lab.Base.{
  ◌≡◌, refl, ◌∙◌, ◌⊎◌, ℕ, inl, inr, true, false, Option, none, some, arith, nat_eq, Bool-cases,
  Option-cases,
}
use itch_lab.Base.Dict.{lookup}
use itch_lab.Base.Result.{ok, err, Result}
use itch_lab.Base.Action.{Raises}
use itch_lab.Errors.{SimulationError}
use itch_lab.Order.{is_pending_submit, OrderState, RejectionReason, SimulatedOrder, terminal}
use itch_lab.Scheduler.{ScheduledAction, ScheduledActionKind}
use itch_lab.StateMachine.{
  TransitionCause, OrderTransition, OrderStateMachine, order, commit, stored,
}
use itch_lab.StateMachine.Commit.{commit_cases}
use itch_lab.StateMachine.Methods.{ended}
use itch_lab.StateMachine.Book.{IsBook}
use itch_lab.StateMachine.Lifecycle.{
  Evolves, Written, SameActions, stored-Written, rejected-Evolves, activated-Evolves,
  cancelled-Evolves,
}
use itch_lab.StateMachine.Actions.{
  Resolver, resolve, finishing, forget, activate_with, apply_cancel, apply_live, apply_action,
}

-- One action on an order raises and changes nothing, or makes one write and forgets the action.
abbrev pub Applied :
    ScheduledAction
    → OrderStateMachine
    → Result (Option OrderTransition) × OrderStateMachine
    → Type 0
Applied a s r =
    Raises s r ⊎ ((u : OrderStateMachine) × Written s u × SameActions s u × (r.1 ≡ forget a u))

module _ (a : ScheduledAction) (s : OrderStateMachine) (o : SimulatedOrder) {id : ℕ}
    (e : lookup id s.orders ≡ some o) (k : o.simulated_order_id ≡ id) where
  -- A commit, after which the action is forgotten.
  finishing-Applied :
      (x : SimulatedOrder) (c : TransitionCause) (t : ℕ) (m q : Option ℕ)
      (r : Option RejectionReason)
      → Evolves o x
      → Applied a s (finishing a (commit o x c t m q r) s)
  unfolding finishing
  finishing-Applied x c t m q r v = elim (commit_cases o x c t m q r s) [
    | inl h ↦ inl (ground (arith, h))
    | inr (valid, _, f) ↦
        inr (stored x s, stored-Written s id o e k x v valid, (refl, refl), ground (arith, f))
  ]

  activate_with-Applied :
      (q : Option (Option ℕ))
      → o.state ≡ OrderState.pending_submit
      → Applied a s (activate_with a o q s)
  unfolding activate_with
  activate_with-Applied none x =
      finishing-Applied _ _ _ _ _ _ (activated-Evolves s id o e k o.queue_ahead_initial x)
  activate_with-Applied (some none) x =
      finishing-Applied _ _ _ _ _ _ (rejected-Evolves s id o e k a.effective_timestamp_ns x)
  activate_with-Applied (some (some n)) x =
      finishing-Applied _ _ _ _ _ _ (activated-Evolves s id o e k (some n) x)

  apply_cancel_at :
      Raises s (apply_cancel a o s)
      ⊎ (((o.state ≡ OrderState.pending_submit) ⊎ (o.state ≡ OrderState.pending_cancel))
          × (apply_cancel a o s
              ≡ finishing a
                  (commit o
                    (ended OrderState.cancelled a.effective_timestamp_ns o)
                    TransitionCause.cancelled
                    a.effective_timestamp_ns
                    none
                    none
                    none)
                  s))
  unfolding apply_cancel
  apply_cancel_at = ground arith

  apply_cancel-Applied : Applied a s (apply_cancel a o s)
  apply_cancel-Applied = elim apply_cancel_at [
    | inl h ↦ inl h
    | inr (x, f) ↦
        rw f
          (finishing-Applied _ _ _ _ _ _ (cancelled-Evolves s id o e k a.effective_timestamp_ns x))
  ]

-- What an action does to the machine `m` that was `s`.
abbrev pub Acts : ScheduledAction → OrderStateMachine → OrderStateMachine → Type 0
Acts a s m = (m ≡ s) ⊎ ((u : OrderStateMachine) × Written s u × SameActions s u × (m ≡ forget a u))

Applied-Acts :
    (a : ScheduledAction) (s m : OrderStateMachine)
    (r : Result (Option OrderTransition) × OrderStateMachine)
    → Applied a s r
    → m ≡ r.1
    → Acts a s m
Applied-Acts a s m r (inl h) e = inl (e ∙ h.1)
Applied-Acts a s m r (inr (u, w, same, f)) e = inr (u, w, same, e ∙ f)

module _ {Q : Type 0} (a : ScheduledAction) (o : SimulatedOrder) (resolver : Option (Resolver Q))
    (s : OrderStateMachine) (q : Q) where
  activation_raised :
      (x : SimulationError) (q' : Q)
      → resolve resolver o q ≡ (err x, q')
      → (apply_live ScheduledActionKind.activate a o resolver (s, q)).1.0 ≡ s
  unfolding apply_live
  activation_raised x q' f = ground arith

  activation_early :
      is_pending_submit o.state ≡ false
      → (apply_live ScheduledActionKind.activate a o resolver (s, q)).1.0 ≡ s
  unfolding apply_live
  activation_early f = ground arith

  activation_resolved :
      (x : Option (Option ℕ)) (q' : Q)
      → is_pending_submit o.state ≡ true
      → resolve resolver o q ≡ (ok x, q')
      → (apply_live ScheduledActionKind.activate a o resolver (s, q)).1.0
        ≡ (activate_with a o x s).1
  unfolding apply_live
  activation_resolved x q' p f = ground arith

  module _ {id : ℕ} (e : lookup id s.orders ≡ some o) (k : o.simulated_order_id ≡ id) where
    activation-Acts :
        (r : Result (Option (Option ℕ)) × Q)
        → resolve resolver o q ≡ r
        → is_pending_submit o.state ≡ true
        → Acts a s (apply_live ScheduledActionKind.activate a o resolver (s, q)).1.0
    activation-Acts (err x, q') f p = inl (activation_raised x q' f)
    activation-Acts (ok x, q') f p =
        Applied-Acts a s _ _ (activate_with-Applied a s o e k x (ground arith))
          (activation_resolved x q' p f)

    apply_live-Acts :
        (kind : ScheduledActionKind) → Acts a s (apply_live kind a o resolver (s, q)).1.0
    apply_live-Acts ScheduledActionKind.activate = elim (Bool-cases (is_pending_submit o.state)) [
      | inl p ↦ activation-Acts _ refl p
      | inr f ↦ inl (activation_early f)
    ]
    apply_live-Acts ScheduledActionKind.cancel =
        unfold apply_live in Applied-Acts a s _ _ (apply_cancel-Applied a s o e k) refl

-- The cases of one action on the machine.
module _ {Q : Type 0} (a : ScheduledAction) (resolver : Option (Resolver Q)) (s : OrderStateMachine)
    (q : Q) where
  action_missing :
      lookup a.simulated_order_id s.orders ≡ none → (apply_action a resolver (s, q)).1.0 ≡ s
  unfolding apply_action order
  action_missing e = ground arith

  action_finished :
      (o : SimulatedOrder)
      → lookup a.simulated_order_id s.orders ≡ some o
      → terminal o ≡ true
      → ((apply_action a resolver (s, q)).1.0 ≡ s)
        ⊎ ((apply_action a resolver (s, q)).1.0 ≡ forget a s)
  unfolding apply_action order
  action_finished o e t = ground arith

  action_live :
      (o : SimulatedOrder)
      → lookup a.simulated_order_id s.orders ≡ some o
      → terminal o ≡ false
      → ((apply_action a resolver (s, q)).1.0 ≡ s)
        ⊎ ((apply_action a resolver (s, q)).1.0 ≡ (apply_live a.kind a o resolver (s, q)).1.0)
  unfolding apply_action order
  action_live o e t = ground arith

  pub apply_action-Acts :
      IsBook s.orders s.occupied_slots
      → Acts a s (apply_action a resolver (s, q)).1.0
        ⊎ ((apply_action a resolver (s, q)).1.0 ≡ forget a s)
  apply_action-Acts b = elim (Option-cases (lookup a.simulated_order_id s.orders)) [
    | inl e ↦ inl (inl (action_missing e))
    | inr (o, e) ↦ elim (Bool-cases (terminal o)) [
      | inl done ↦ elim (action_finished o e done) [ inl h ↦ inl (inl h) | inr h ↦ inr h ]
      | inr live ↦ elim (action_live o e live) [
        | inl h ↦ inl (inl h)
        | inr h ↦
            inl
              (rw h (apply_live-Acts a o resolver s q e (b.keyed a.simulated_order_id o e) a.kind))
      ]
    ]
  ]
