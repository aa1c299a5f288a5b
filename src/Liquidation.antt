-- ===== src/Liquidation.antt =====
-- python/src/itchlab_research/simulation/liquidation.py: the end of the session. The settlement
-- expires the live orders of the state machine and closes the positions of the ledger. Here are the
-- values and the loops; `Settle` has the calls.
pub mod Settle
pub mod Open
pub mod Expiry
pub mod Branches
pub mod Outcome
mod Tests
use itch_lab.Base.{
  ℕ, ◌+◌, Bool, true, false, ◌||◌, not, Option, none, some, List, [], ◌∷◌, ltb, nat_eq,
  if◌then◌else◌,
}
use itch_lab.Base.Int.{ℤ, pos, negsuc, neg, ltb_ℤ, eqb_ℤ, abs}
use itch_lab.Base.Dict.{Dict, lookup, contains, insert}
use itch_lab.Base.Result.{Result, ok, err, ◌>>=◌, ◌>>◌, raise_if}
use itch_lab.Errors.{ErrorCode}
use itch_lab.Order.{
  SimulatedOrder, fail, terminal, valid_int, max_uint16, max_uint32, max_timestamp_ns,
  validate_simulated_order,
}
use itch_lab.StateMachine.{OrderStateMachine, OrderTransition, orders_of}
use itch_lab.StateMachine.Methods.{expire}
use itch_lab.Accounting.{
  AccountingLedger, LiquidationAccounting, PreparedTerminalAccounting, SymbolAccounting,
  TerminalTrade, valid_ℤ, max_fee_microusd_per_share,
}
use itch_lab.Accounting.Snapshot.{AccountingSnapshot, snapshot}
use itch_lab.Accounting.Terminal.{prepare_terminal_accounting, commit_terminal_accounting}

pub record TerminalQuote : Type 0 where
  pub symbol_id : ℕ
  pub timestamp_ns : ℕ
  pub best_bid_price4 : ℕ
  pub best_ask_price4 : ℕ

abbrev pub mid2 : TerminalQuote → ℕ
mid2 q = q.best_bid_price4 + q.best_ask_price4

pub record TerminalSettlement : Type 0 where
  pub expired_orders : List OrderTransition
  pub liquidations : List LiquidationAccounting
  pub accounting : AccountingSnapshot

-- `_validate_quote`
unfoldable pub validate_quote : ℕ → TerminalQuote → Result (Unit {0})
validate_quote session_end_timestamp_ns q =
    if not (valid_int q.symbol_id 1 max_uint16)
    then err (fail ErrorCode.unknown_symbol none none)
    else if not (valid_int q.timestamp_ns 0 session_end_timestamp_ns)
    then err (fail ErrorCode.timestamp none none)
    else if not (valid_int q.best_bid_price4 0 max_uint32)
        || not (valid_int q.best_ask_price4 0 max_uint32)
    then err (fail ErrorCode.price none none)
    else if ltb q.best_ask_price4 q.best_bid_price4
    then err (fail ErrorCode.book_crossed none none)
    else ok tt

-- The loop that builds `quotes_by_symbol`.
unfoldable pub add_quotes :
    ℕ → List TerminalQuote → Dict ℕ TerminalQuote → Result (Dict ℕ TerminalQuote)
add_quotes session_end [] d = ok d
add_quotes session_end (q ∷ qs) d = do
  validate_quote session_end q
  raise_if (contains q.symbol_id d) (fail ErrorCode.price none none)
  add_quotes session_end qs (insert q.symbol_id q d)

-- `-1 if symbol.inventory > 0 else 1`
abbrev pub closing_side : ℤ → ℤ
closing_side inventory = if ltb_ℤ (pos 0) inventory then negsuc 0 else pos 1

-- `TerminalTrade(...)`
abbrev pub closing_trade : ℕ → SymbolAccounting → TerminalQuote → TerminalTrade
closing_trade session_end row q = record {
  symbol_id = row.symbol_id;
  side = closing_side row.inventory;
  price4 =
      if eqb_ℤ (closing_side row.inventory) (negsuc 0)
      then q.best_bid_price4
      else q.best_ask_price4;
  quantity = abs row.inventory;
  mark_mid2 = mid2 q;
  timestamp_ns = session_end;
}

-- The loop that builds `trades`.
unfoldable pub terminal_trades :
    ℕ → Dict ℕ TerminalQuote → List SymbolAccounting → Result (List TerminalTrade)
terminal_trades session_end quotes [] = ok []
terminal_trades session_end quotes (row ∷ rows) =
    let rest = terminal_trades session_end quotes rows in
    if eqb_ℤ row.inventory (pos 0) then rest else elim (lookup row.symbol_id quotes) [
      | none ↦ err (fail ErrorCode.price none none)
      | some q ↦ rest >>= λ ts. ok (closing_trade session_end row q ∷ ts)
    ]

-- `order for order in state_machine.orders if not order.terminal`
unfoldable pub live_orders : List SimulatedOrder → List SimulatedOrder
live_orders [] = []
live_orders (o ∷ os) = let rest = live_orders os in if terminal o then rest else o ∷ rest

-- The loop that checks the open orders.
unfoldable pub check_open : ℕ → List SimulatedOrder → Result (Unit {0})
check_open session_end [] = ok tt
check_open session_end (o ∷ os) = do
  validate_simulated_order o
  raise_if (ltb session_end o.requested_timestamp_ns) (fail ErrorCode.timestamp none none)
  check_open session_end os
