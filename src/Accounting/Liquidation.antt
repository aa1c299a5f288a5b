-- ===== src/Accounting/Liquidation.antt =====
-- accounting.py: the arithmetic of the terminal liquidation, on copies of the ledger's accounts.
use itch_lab.Base.{
  ℕ, ◌+◌, Bool, true, false, ◌&&◌, ◌||◌, not, none, List, [], ◌∷◌, ◌++◌, length, nat_eq, ltb, eqb,
  if◌then◌else◌,
}
use itch_lab.Base.Int.{ℤ, pos, negsuc, ◌+ℤ◌, eqb_ℤ, ltb_ℤ, abs}
use itch_lab.Base.Dict.{Dict, insert}
use itch_lab.Base.Result.{Result, ok, ◌>>=◌, ◌>>◌, raise_if}
use itch_lab.Errors.{ErrorCode}
use itch_lab.Order.{fail, valid_int, valid_side, max_uint32, max_uint64, max_timestamp_ns}
use itch_lab.Accounting.{
  Totals, TerminalTrade, LiquidationAccounting, PreparedTerminalAccounting, AccountingLedger,
  checked_int64, validate_fee_rate, validate_symbol_id, validate_mark_mid2, trade_cash_delta,
  trade_fee, mark_relative_value,
}
use itch_lab.Accounting.Marks.{Marked, position, apply_mark_to_copies, validate_reconciliation}

-- `_validate_terminal_trade`
unfoldable pub validate_terminal_trade : TerminalTrade → Result (Unit {0})
validate_terminal_trade t = do
  _ ← validate_symbol_id t.symbol_id
  raise_if (not (valid_side t.side)) (fail ErrorCode.inventory_limit none none)
  raise_if (not (valid_int t.price4 0 max_uint32)) (fail ErrorCode.price none none)
  raise_if (not (valid_int t.quantity 1 max_uint64)) (fail ErrorCode.quantity none none)
  _ ← validate_mark_mid2 t.mark_mid2
  raise_if (not (valid_int t.timestamp_ns 0 max_timestamp_ns)) (fail ErrorCode.timestamp none none)

-- `k in seen`
abbrev pub member : ℕ → List ℕ → Bool
member k [] = false
member k (j ∷ l) = eqb k j || member k l

-- The first loop: the trades are valid, of different symbols, and mark their symbols. It returns
-- the copies and the symbols seen.
unfoldable pub mark_trades : List TerminalTrade → List ℕ → Marked → Result (List ℕ × Marked)
mark_trades [] seen m = ok (seen, m)
mark_trades (t ∷ ts) seen m = do
  validate_terminal_trade t
  raise_if (member t.symbol_id seen) (fail ErrorCode.simulation_anomaly none none)
  m' ← apply_mark_to_copies t.symbol_id t.mark_mid2 m.positions m.marks m.inventory_mark_to_market
  mark_trades ts (t.symbol_id ∷ seen) m'

-- `{symbol for symbol, inventory in positions.items() if inventory != 0}`
unfoldable pub nonzero_symbols : Dict ℕ ℤ → List ℕ
nonzero_symbols [] = []
nonzero_symbols ((k, v) ∷ d) = if eqb_ℤ v (pos 0) then nonzero_symbols d else k ∷ nonzero_symbols d

abbrev pub subset : List ℕ → List ℕ → Bool
subset [] l = true
subset (k ∷ ks) l = member k l && subset ks l

-- The accounts that the second loop changes.
pub record Closing : Type 0 where
  pub positions : Dict ℕ ℤ
  pub gross_liquidation_cash : ℤ
  pub taker_fees : ℤ
  pub terminal_slippage : ℤ
  pub liquidation_quantity : ℤ
  pub records : List LiquidationAccounting

-- `-1 if inventory_before > 0 else 1`
abbrev pub expected_side : ℤ → ℤ
expected_side inventory = if ltb_ℤ (pos 0) inventory then negsuc 0 else pos 1

-- One round of the second loop: the trade closes its position.
unfoldable pub close_trade : ℕ → ℤ → TerminalTrade → Closing → Result Closing
close_trade already taker_rate t c = do
  let before = position t.symbol_id c.positions
  raise_if (not (eqb_ℤ t.side (expected_side before)) || not (eqb t.quantity (abs before)))
      (fail ErrorCode.inventory_limit none none)
  cash_delta ← trade_cash_delta t.side t.price4 t.quantity
  fee ← trade_fee taker_rate t.quantity
  slippage ← mark_relative_value t.side t.price4 t.quantity t.mark_mid2
  cash ← checked_int64 (c.gross_liquidation_cash +ℤ cash_delta)
  fees ← checked_int64 (c.taker_fees +ℤ fee)
  slippages ← checked_int64 (c.terminal_slippage +ℤ slippage)
  quantity ← checked_int64 (c.liquidation_quantity +ℤ pos t.quantity)
  ok (record {
    positions = insert t.symbol_id (pos 0) c.positions;
    gross_liquidation_cash = cash;
    taker_fees = fees;
    terminal_slippage = slippages;
    liquidation_quantity = quantity;
    records =
        c.records
        ++ (record {
          liquidation_id = already + length c.records;
          timestamp_ns = t.timestamp_ns;
          symbol_id = t.symbol_id;
          side = t.side;
          price4 = t.price4;
          quantity = t.quantity;
          fee_microusd = fee;
          cash_delta_microusd = cash_delta;
          inventory_before = before;
          inventory_after = pos 0;
          mark_mid2 = t.mark_mid2;
          slippage_microusd = slippage;
        })
          ∷ [];
  })

unfoldable pub close_trades : ℕ → ℤ → List TerminalTrade → Closing → Result Closing
close_trades already taker_rate [] c = ok c
close_trades already taker_rate (t ∷ ts) c = do
  c' ← close_trade already taker_rate t c
  close_trades already taker_rate ts c'

-- `sorted(d.items())`: insertion into a list sorted by the key.
unfoldable pub insert_item {ℓ} : {V : Type ℓ} → ℕ × V → Dict ℕ V → Dict ℕ V
insert_item (k, v) [] = (k, v) ∷ []
insert_item (k, v) ((j, w) ∷ d) =
    if ltb k j then (k, v) ∷ (j, w) ∷ d else (j, w) ∷ insert_item (k, v) d

unfoldable pub sorted_items {ℓ} : {V : Type ℓ} → Dict ℕ V → Dict ℕ V
sorted_items [] = []
sorted_items (e ∷ d) = insert_item e (sorted_items d)

-- What the second loop starts from.
abbrev pub opening : AccountingLedger → Dict ℕ ℤ → Closing
opening s positions = record {
  positions = positions;
  gross_liquidation_cash = s.totals.gross_liquidation_cash;
  taker_fees = s.totals.taker_fees;
  terminal_slippage = s.totals.terminal_liquidation_slippage;
  liquidation_quantity = s.liquidation_quantity;
  records = [];
}

abbrev pub closing_totals : Closing → ℤ → Totals → Totals
closing_totals c mark_to_market t = record t {
  gross_liquidation_cash = c.gross_liquidation_cash;
  taker_fees = c.taker_fees;
  inventory_mark_to_market = mark_to_market;
  terminal_liquidation_slippage = c.terminal_slippage;
}

-- The body of `prepare_terminal_accounting`, up to the plan.
unfoldable pub plan_terminal :
    AccountingLedger → List TerminalTrade → ℤ → Result PreparedTerminalAccounting
plan_terminal s trades taker_fee_microusd_per_share = do
  taker_rate ← validate_fee_rate taker_fee_microusd_per_share
  (seen, m) ← mark_trades trades [] (record {
    positions = s.positions;
    marks = s.marks;
    inventory_mark_to_market = s.totals.inventory_mark_to_market;
  })
  raise_if
      (not (subset seen (nonzero_symbols m.positions) && subset (nonzero_symbols m.positions) seen))
      (fail ErrorCode.price none none)
  c ← close_trades (length s.liquidations) taker_rate trades (opening s m.positions)
  _ ←
      validate_reconciliation c.positions m.marks
        (closing_totals c m.inventory_mark_to_market s.totals)
  ok (record {
    identity = s.plans_prepared;
    revision = s.revision;
    records = c.records;
    positions = sorted_items c.positions;
    marks = sorted_items m.marks;
    max_abs_positions = sorted_items s.max_abs_positions;
    gross_liquidation_cash_microusd = c.gross_liquidation_cash;
    taker_fee_microusd = c.taker_fees;
    inventory_mark_to_market_microusd = m.inventory_mark_to_market;
    terminal_liquidation_slippage_microusd = c.terminal_slippage;
    liquidation_count = length s.liquidations + length c.records;
    liquidation_quantity = c.liquidation_quantity;
  })
