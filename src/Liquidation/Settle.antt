-- ===== src/Liquidation/Settle.antt =====
-- liquidation.py: `settle_session_end`, over the state machine and the ledger.
use itch_lab.Base.{ℕ, not, none, List, [], ◌∷◌, nat_eq}
use itch_lab.Base.Int.{ℤ, pos, neg}
use itch_lab.Base.Action.{Action, ◌>>=◌, ◌>>◌, pure, lift, raise_if, gets}
use itch_lab.Errors.{ErrorCode}
use itch_lab.Order.{SimulatedOrder, fail, valid_int, max_timestamp_ns}
use itch_lab.StateMachine.{OrderStateMachine, OrderTransition, orders_of}
use itch_lab.StateMachine.Methods.{expire}
use itch_lab.Accounting.{
  AccountingLedger, PreparedTerminalAccounting, valid_ℤ, max_fee_microusd_per_share,
}
use itch_lab.Accounting.Snapshot.{snapshot}
use itch_lab.Accounting.Terminal.{prepare_terminal_accounting, commit_terminal_accounting}
use itch_lab.Liquidation.{
  TerminalQuote, TerminalSettlement, add_quotes, terminal_trades, live_orders, check_open,
}

-- `tuple(state_machine.expire(...) for order in open_orders)`
unfoldable pub expire_all :
    ℕ → List SimulatedOrder → Action OrderStateMachine (List OrderTransition)
expire_all session_end [] = pure []
expire_all session_end (o ∷ os) = do
  t ← expire o.simulated_order_id session_end
  ts ← expire_all session_end os
  pure (t ∷ ts)

abbrev pub Session : Type 0
Session = OrderStateMachine × AccountingLedger

abbrev pub on_machine : {A : Type 0} → Action OrderStateMachine A → Action Session A
on_machine m (s, l) = let (r, s') = m s in (r, (s', l))

abbrev pub on_ledger : {A : Type 0} → Action AccountingLedger A → Action Session A
on_ledger m (s, l) = let (r, l') = m l in (r, (s, l'))

-- The part of the settlement that can be refused: up to the checks of the open orders.
unfoldable pub prepare_settlement :
    ℕ → List TerminalQuote → ℤ → Action Session (PreparedTerminalAccounting × List SimulatedOrder)
prepare_settlement session_end last_quotes taker_fee = do
  raise_if (not (valid_int session_end 0 max_timestamp_ns)) (fail ErrorCode.timestamp none none)
  raise_if
      (not
        (valid_ℤ taker_fee (neg (pos max_fee_microusd_per_share)) (pos max_fee_microusd_per_share)))
      (fail ErrorCode.cost none none)
  quotes ← lift (add_quotes session_end last_quotes [])
  view ← on_ledger snapshot
  trades ← lift (terminal_trades session_end quotes view.symbols)
  plan ← on_ledger (prepare_terminal_accounting trades taker_fee)
  open_orders ← gets (λ s. live_orders (orders_of s.0))
  lift (check_open session_end open_orders)
  pure (plan, open_orders)

unfoldable pub settle_session_end : ℕ → List TerminalQuote → ℤ → Action Session TerminalSettlement
settle_session_end session_end last_quotes taker_fee = do
  (plan, open_orders) ← prepare_settlement session_end last_quotes taker_fee
  expirations ← on_machine (expire_all session_end open_orders)
  liquidations ← on_ledger (commit_terminal_accounting plan)
  view ← on_ledger snapshot
  pure (record { expired_orders = expirations; liquidations = liquidations; accounting = view })
