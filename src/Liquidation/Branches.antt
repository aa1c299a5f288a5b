-- ===== src/Liquidation/Branches.antt =====
-- liquidation.py: the branches of `settle_session_end`.
use itch_lab.Base.{◌≡◌, ℕ, Bool, true, false, ◌&&◌, List, [], arith, nat_eq}
use itch_lab.Base.Int.{ℤ, pos, neg}
use itch_lab.Base.Result.{Result, ok, is_ok}
use itch_lab.Base.Dict.{Dict}
use itch_lab.Base.Action.{Raises}
use itch_lab.Order.{SimulatedOrder, valid_int, max_timestamp_ns}
use itch_lab.StateMachine.{OrderStateMachine, OrderTransition, orders_of}
use itch_lab.Accounting.{
  AccountingLedger, LiquidationAccounting, PreparedTerminalAccounting, TerminalTrade, valid_ℤ,
  max_fee_microusd_per_share,
}
use itch_lab.Accounting.Snapshot.{AccountingSnapshot, snapshot}
use itch_lab.Accounting.Session.{snapshot_state}
use itch_lab.Accounting.Terminal.{prepare_terminal_accounting, commit_terminal_accounting}
use itch_lab.Liquidation.{TerminalQuote, add_quotes, terminal_trades, live_orders, check_open}
use itch_lab.Liquidation.Settle.{expire_all, Session, prepare_settlement, settle_session_end}

module _ (t : ℕ) (qs : List TerminalQuote) (fee : ℤ) (s : OrderStateMachine)
    (l : AccountingLedger) where
  abbrev pub guards : Bool
  guards =
      valid_int t 0 max_timestamp_ns
      && valid_ℤ fee (neg (pos max_fee_microusd_per_share)) (pos max_fee_microusd_per_share)

  abbrev pub prepared : Result (PreparedTerminalAccounting × List SimulatedOrder) × Session
  prepared = prepare_settlement t qs fee (s, l)

  abbrev pub opens : List SimulatedOrder
  opens = live_orders (orders_of s)

  pub guards_fail : guards ≡ false → Raises (s, l) prepared
  unfolding prepare_settlement
  guards_fail h = ground arith

  module _ (g : guards ≡ true) where
    pub guards_day : valid_int t 0 max_timestamp_ns ≡ true
    guards_day = ground (arith, g)

    pub quotes_fail : is_ok (add_quotes t qs []) ≡ false → Raises (s, l) prepared
    unfolding prepare_settlement
    quotes_fail h = ground (arith, g)

    module _ (d : Dict ℕ TerminalQuote) (hd : add_quotes t qs [] ≡ ok d) where
      pub view_fail : is_ok (snapshot l).0 ≡ false → Raises (s, l) prepared
      unfolding prepare_settlement
      view_fail h = ground (arith, g, snapshot_state l)

      module _ (v : AccountingSnapshot) (hv : snapshot l ≡ (ok v, l)) where
        pub trades_fail : is_ok (terminal_trades t d v.symbols) ≡ false → Raises (s, l) prepared
        unfolding prepare_settlement
        trades_fail h = ground (arith, g)

        module _ (ts : List TerminalTrade) (ht : terminal_trades t d v.symbols ≡ ok ts) where
          pub plan_fail : Raises l (prepare_terminal_accounting ts fee l) → Raises (s, l) prepared
          unfolding prepare_settlement
          plan_fail h = ground (arith, g, h)

          module _ (p : PreparedTerminalAccounting) (l1 : AccountingLedger)
              (hp : prepare_terminal_accounting ts fee l ≡ (ok p, l1)) where
            pub check_fail :
                is_ok (check_open t opens) ≡ false
                → (is_ok prepared.0 ≡ false) × (prepared.1 ≡ (s, l1))
            unfolding prepare_settlement
            check_fail h = ground (arith, g)

            pub prepared_ok : check_open t opens ≡ ok tt → prepared ≡ (ok (p, opens), (s, l1))
            unfolding prepare_settlement
            prepared_ok h = ground (arith, g)

  pub settle_refused :
      is_ok prepared.0 ≡ false
      → (is_ok (settle_session_end t qs fee (s, l)).0 ≡ false)
        × ((settle_session_end t qs fee (s, l)).1 ≡ prepared.1)
  unfolding settle_session_end
  settle_refused h = ground arith

  pub settle_ran :
      (p : PreparedTerminalAccounting) (l1 : AccountingLedger) (es : List OrderTransition)
      (s2 : OrderStateMachine) (rs : List LiquidationAccounting) (l2 : AccountingLedger)
      → prepared ≡ (ok (p, opens), (s, l1))
      → expire_all t opens s ≡ (ok es, s2)
      → commit_terminal_accounting p l1 ≡ (ok rs, l2)
      → (settle_session_end t qs fee (s, l)).1 ≡ (s2, l2)
  unfolding settle_session_end
  settle_ran p l1 es s2 rs l2 hp he hc = ground (arith, snapshot_state l2)
