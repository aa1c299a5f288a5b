-- ===== src/StateMachine/Actions.antt =====
-- state_machine.py: the scheduled actions. The activation resolver is a call back into the owner
-- of another state `Q` (the queue model), which it may change, and may raise.
pub mod Invariant
pub mod Run
pub mod Events
pub mod Resolved
use itch_lab.Base.{
  ℕ, Bool, true, false, ◌&&◌, ◌||◌, not, Option, none, some, List, [], ◌∷◌, eqb, nat_eq, is_some,
  if◌then◌else◌,
}
use itch_lab.Base.Dict.{lookup, erase}
use itch_lab.Base.Result.{ok}
use itch_lab.Base.Action.{Action, ◌>>=◌, ◌>>◌, pure, raise_if, gets, modify}
use itch_lab.Errors.{ErrorCode}
use itch_lab.Order.{
  OrderState, RejectionReason, SimulatedOrder, terminal, is_pending_submit, is_pending_cancel, fail,
  valid_int, max_uint64, absent_or,
}
use itch_lab.Scheduler.{
  ScheduledAction, ScheduledActionKind, actions_before_market, actions_after_market_timestamp,
}
use itch_lab.StateMachine.{
  TransitionCause, OrderTransition, OrderStateMachine, on_scheduler, order, invalid_transition,
  commit,
}
use itch_lab.StateMachine.Methods.{rejected, ended}

abbrev pub Resolver : Type 0 → Type 0
Resolver Q = SimulatedOrder → Action Q (Option ℕ)

abbrev pub same_kind : ScheduledActionKind → ScheduledActionKind → Bool
same_kind ScheduledActionKind.activate ScheduledActionKind.activate = true
same_kind ScheduledActionKind.cancel ScheduledActionKind.cancel = true
same_kind _ _ = false

-- `a == b`, of two actions
abbrev pub same_action : ScheduledAction → ScheduledAction → Bool
same_action a b =
    eqb a.effective_timestamp_ns b.effective_timestamp_ns
    && eqb a.sequence b.sequence
    && eqb a.simulated_order_id b.simulated_order_id
    && same_kind a.kind b.kind
    && eqb a.requested_timestamp_ns b.requested_timestamp_ns
    && eqb a.request_message_index b.request_message_index

abbrev pub is_action : ScheduledAction → Option ScheduledAction → Bool
is_action a none = false
is_action a (some b) = same_action b a

-- `del self._scheduled_actions[action.sequence]`
abbrev pub forget : ScheduledAction → OrderStateMachine → OrderStateMachine
forget a s = record s { scheduled_actions = erase a.sequence s.scheduled_actions }

-- The order when its submission takes effect.
abbrev pub activated : Option ℕ → SimulatedOrder → SimulatedOrder
activated queue_ahead_initial o = record o {
  queue_ahead_initial = queue_ahead_initial;
  state = if is_some o.cancel_requested_ns then OrderState.pending_cancel else OrderState.active;
}

-- `del self._scheduled_actions[action.sequence]; return transition`
unfoldable pub finishing :
    ScheduledAction
    → Action OrderStateMachine OrderTransition
    → Action OrderStateMachine (Option OrderTransition)
finishing a m = do t ← m; modify (forget a); pure (some t)

-- The activation with the resolver's answer: `none` without a resolver, `some none` for a
-- rejection.
unfoldable pub activate_with :
    ScheduledAction
    → SimulatedOrder
    → Option (Option ℕ)
    → Action OrderStateMachine (Option OrderTransition)
activate_with a o (some none) = finishing a (
    commit o (rejected a.effective_timestamp_ns o) TransitionCause.rejected a.effective_timestamp_ns
      none none (some RejectionReason.marketable_at_activation))
activate_with a o (some (some ahead)) = finishing a (
    commit o (activated (some ahead) o) TransitionCause.activated a.effective_timestamp_ns none none
      none)
activate_with a o none = finishing a (
    commit o (activated o.queue_ahead_initial o) TransitionCause.activated a.effective_timestamp_ns
      none none none)

-- The cancellation branch.
unfoldable pub apply_cancel :
    ScheduledAction → SimulatedOrder → Action OrderStateMachine (Option OrderTransition)
apply_cancel a o = do
  raise_if (not (is_pending_submit o.state || is_pending_cancel o.state)) (invalid_transition o)
  raise_if (not (is_some o.cancel_requested_ns)) (invalid_transition o)
  finishing a (
      commit o (ended OrderState.cancelled a.effective_timestamp_ns o) TransitionCause.cancelled
        a.effective_timestamp_ns none none none)

abbrev pub append_some : Option OrderTransition → List OrderTransition → List OrderTransition
append_some none ts = ts
append_some (some t) ts = t ∷ ts

module _ {Q : Type 0} where
  -- A call of the machine beside the resolver's state, and a call of the resolver.
  abbrev pub on_machine :
      {A : Type 0} → Action OrderStateMachine A → Action (OrderStateMachine × Q) A
  on_machine m (s, q) = let (r, s') = m s in (r, (s', q))

  abbrev pub on_queue : {A : Type 0} → Action Q A → Action (OrderStateMachine × Q) A
  on_queue m (s, q) = let (r, q') = m q in (r, (s, q'))

  -- The resolver's answer, checked.
  unfoldable pub resolve : Option (Resolver Q) → SimulatedOrder → Action Q (Option (Option ℕ))
  resolve none o = pure none
  resolve (some resolver) o = do
    ahead ← resolver o
    raise_if (not (absent_or (λ q. valid_int q 0 max_uint64) ahead))
        (fail ErrorCode.queue_state (some o.simulated_order_id) none)
    pure (some ahead)

  -- The branches on the kind, for an order that is not finished.
  unfoldable pub apply_live :
      ScheduledActionKind
      → ScheduledAction
      → SimulatedOrder
      → Option (Resolver Q)
      → Action (OrderStateMachine × Q) (Option OrderTransition)
  apply_live ScheduledActionKind.activate a o resolver = do
    raise_if (not (is_pending_submit o.state)) (invalid_transition o)
    ahead ← on_queue (resolve resolver o)
    on_machine (activate_with a o ahead)
  apply_live ScheduledActionKind.cancel a o resolver = on_machine (apply_cancel a o)

  -- `_apply_action`
  unfoldable pub apply_action :
      ScheduledAction
      → Option (Resolver Q)
      → Action (OrderStateMachine × Q) (Option OrderTransition)
  apply_action a resolver = do
    known ← gets (λ s. lookup a.sequence s.0.scheduled_actions)
    raise_if (not (is_action a known))
        (fail ErrorCode.simulation_anomaly (some a.simulated_order_id) none)
    o ← on_machine (order a.simulated_order_id)
    if terminal o then (λ s. (ok none, (forget a s.0, s.1))) else apply_live a.kind a o resolver

  -- `_apply_actions`
  unfoldable pub apply_actions :
      List ScheduledAction
      → Option (Resolver Q)
      → Action (OrderStateMachine × Q) (List OrderTransition)
  apply_actions [] resolver = pure []
  apply_actions (a ∷ rest) resolver = do
    t ← apply_action a resolver
    ts ← apply_actions rest resolver
    pure (append_some t ts)

  unfoldable pub before_market_event :
      ℕ → ℕ → Option (Resolver Q) → Action (OrderStateMachine × Q) (List OrderTransition)
  before_market_event timestamp_ns message_index resolver = do
    actions ← on_machine (on_scheduler (actions_before_market timestamp_ns message_index))
    apply_actions actions resolver

  unfoldable pub after_market_timestamp :
      ℕ → Option (Resolver Q) → Action (OrderStateMachine × Q) (List OrderTransition)
  after_market_timestamp timestamp_ns resolver = do
    actions ← on_machine (on_scheduler (actions_after_market_timestamp timestamp_ns))
    apply_actions actions resolver
