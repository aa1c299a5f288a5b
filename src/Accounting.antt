-- ===== src/Accounting.antt =====
-- python/src/itchlab_research/simulation/accounting.py: the state of the ledger and its checked
-- arithmetic. Prices, marks and quantities are naturals; sides, inventories, cash and fees are
-- signed integers. The operations stand in the children.
pub mod Marks
pub mod Plan
pub mod Fills
pub mod Liquidation
pub mod Terminal
pub mod Snapshot
pub mod Algebra
pub mod Identity
pub mod Reconcile
pub mod Balance
pub mod Amounts
pub mod FillBranches
pub mod FillOutcome
pub mod Session
pub mod Limits
pub mod Keys
pub mod Rows
pub mod Flat
pub mod Settlement
mod Tests
pub mod Invariant
use itch_lab.Base.{
  ℕ, ◌*◌, Bool, true, false, ◌&&◌, ◌||◌, not, Option, none, some, List, [], ◌∷◌, leb, if◌then◌else◌,
}
use itch_lab.Base.Int.{ℤ, pos, negsuc, ◌+ℤ◌, ◌-ℤ◌, ◌*ℤ◌, neg, leb_ℤ}
use itch_lab.Base.Dict.{Dict}
use itch_lab.Base.Result.{Result, ok, err, ◌>>=◌, ◌>>◌, raise_if}
use itch_lab.Errors.{ErrorCode, SimulationError}
use itch_lab.Order.{fail, valid_int, max_uint16, max_uint32}

abbrev pub max_int64 : ℕ
max_int64 = 9223372036854775807

-- -(1 << 63), and (1 << 63) - 1
abbrev pub min_int64_ℤ : ℤ
min_int64_ℤ = negsuc 9223372036854775807

abbrev pub max_int64_ℤ : ℤ
max_int64_ℤ = pos 9223372036854775807

abbrev pub max_fee_microusd_per_share : ℕ
max_fee_microusd_per_share = 1000000

abbrev pub max_mid2 : ℕ
max_mid2 = 8589934590

pub record AccountedFill : Type 0 where
  pub fill_id : ℕ
  pub simulated_order_id : ℕ
  pub market_message_index : ℕ
  pub timestamp_ns : ℕ
  pub price4 : ℕ
  pub quantity : ℕ
  pub fee_microusd : ℤ
  pub cash_delta_microusd : ℤ
  pub inventory_after : ℤ

pub record TerminalTrade : Type 0 where
  pub symbol_id : ℕ
  pub side : ℤ
  pub price4 : ℕ
  pub quantity : ℕ
  pub mark_mid2 : ℕ
  pub timestamp_ns : ℕ

pub record LiquidationAccounting : Type 0 where
  pub liquidation_id : ℕ
  pub timestamp_ns : ℕ
  pub symbol_id : ℕ
  pub side : ℤ
  pub price4 : ℕ
  pub quantity : ℕ
  pub fee_microusd : ℤ
  pub cash_delta_microusd : ℤ
  pub inventory_before : ℤ
  pub inventory_after : ℤ
  pub mark_mid2 : ℕ
  pub slippage_microusd : ℤ

pub record SymbolAccounting : Type 0 where
  pub symbol_id : ℕ
  pub inventory : ℤ
  pub mark_mid2 : Option ℕ
  pub marked_value_microusd : ℤ
  pub max_abs_inventory : ℕ

-- The seven money accounts of the ledger.
pub record Totals : Type 0 where
  pub gross_passive_cash : ℤ
  pub gross_liquidation_cash : ℤ
  pub maker_fees : ℤ
  pub taker_fees : ℤ
  pub passive_spread_capture : ℤ
  pub inventory_mark_to_market : ℤ
  pub terminal_liquidation_slippage : ℤ

-- `PreparedTerminalAccounting`. The source compares plans by object identity: `identity` is the
-- number of plans that the ledger had prepared before.
pub record PreparedTerminalAccounting : Type 0 where
  pub identity : ℕ
  pub revision : ℕ
  pub records : List LiquidationAccounting
  pub positions : Dict ℕ ℤ
  pub marks : Dict ℕ ℕ
  pub max_abs_positions : Dict ℕ ℕ
  pub gross_liquidation_cash_microusd : ℤ
  pub taker_fee_microusd : ℤ
  pub inventory_mark_to_market_microusd : ℤ
  pub terminal_liquidation_slippage_microusd : ℤ
  pub liquidation_count : ℕ
  pub liquidation_quantity : ℤ

pub record AccountingLedger : Type 0 where
  pub maker_fee_rate : ℤ
  pub inventory_limit : ℕ
  pub positions : Dict ℕ ℤ
  pub marks : Dict ℕ ℕ
  pub max_abs_positions : Dict ℕ ℕ
  pub accounted_quantity_by_order : Dict ℕ ℕ
  pub fill_keys : List (ℕ × ℕ × ℕ)
  pub fills : List AccountedFill
  pub liquidations : List LiquidationAccounting
  pub next_fill_id : ℕ
  pub revision : ℕ
  pub passive_fill_quantity : ℤ
  pub liquidation_quantity : ℤ
  pub totals : Totals
  pub settled : Bool
  pub prepared_terminal_plan : Option PreparedTerminalAccounting
  pub plans_prepared : ℕ

-- `minimum <= value <= maximum`, of signed integers
abbrev pub valid_ℤ : ℤ → ℤ → ℤ → Bool
valid_ℤ value minimum maximum = leb_ℤ minimum value && leb_ℤ value maximum

abbrev pub cost_error : SimulationError
cost_error = fail ErrorCode.cost none none

-- `_checked_int64`
unfoldable pub checked_int64 : ℤ → Result ℤ
checked_int64 v = if valid_ℤ v min_int64_ℤ max_int64_ℤ then ok v else err cost_error

-- The loop of `_checked_sum_int64`
unfoldable pub checked_sum_from : ℤ → List ℤ → Result ℤ
checked_sum_from total [] = ok total
checked_sum_from total (v ∷ vs) = do total' ← checked_int64 (total +ℤ v); checked_sum_from total' vs

abbrev pub checked_sum_int64 : List ℤ → Result ℤ
checked_sum_int64 = checked_sum_from (pos 0)

unfoldable pub validate_fee_rate : ℤ → Result ℤ
validate_fee_rate v =
    if valid_ℤ v (neg (pos max_fee_microusd_per_share)) (pos max_fee_microusd_per_share)
    then ok v
    else err cost_error

unfoldable pub validate_symbol_id : ℕ → Result ℕ
validate_symbol_id v =
    if valid_int v 1 max_uint16 then ok v else err (fail ErrorCode.unknown_symbol none none)

unfoldable pub validate_mark_mid2 : ℕ → Result ℕ
validate_mark_mid2 v = if valid_int v 0 max_mid2 then ok v else err (fail ErrorCode.price none none)

-- inventory * mark_mid2 * 50
abbrev pub mark_value : ℤ → ℕ → ℤ
mark_value inventory mark_mid2 = inventory *ℤ pos mark_mid2 *ℤ pos 50

unfoldable pub marked_value : ℤ → ℕ → Result ℤ
marked_value inventory mark_mid2 = checked_int64 (mark_value inventory mark_mid2)

-- -side * price4 * quantity * 100
abbrev pub cash_value : ℤ → ℕ → ℕ → ℤ
cash_value side price4 quantity = neg side *ℤ pos price4 *ℤ pos quantity *ℤ pos 100

unfoldable pub trade_cash_delta : ℤ → ℕ → ℕ → Result ℤ
trade_cash_delta side price4 quantity = checked_int64 (cash_value side price4 quantity)

unfoldable pub trade_fee : ℤ → ℕ → Result ℤ
trade_fee rate quantity = checked_int64 (rate *ℤ pos quantity)

-- side * (mark_mid2 - 2 * price4) * quantity * 50
abbrev pub relative_value : ℤ → ℕ → ℕ → ℕ → ℤ
relative_value side price4 quantity mark_mid2 =
    side *ℤ (pos mark_mid2 -ℤ pos (2 * price4)) *ℤ pos quantity *ℤ pos 50

unfoldable pub mark_relative_value : ℤ → ℕ → ℕ → ℕ → Result ℤ
mark_relative_value side price4 quantity mark_mid2 =
    checked_int64 (relative_value side price4 quantity mark_mid2)

abbrev pub no_totals : Totals
no_totals = record {
  gross_passive_cash = pos 0;
  gross_liquidation_cash = pos 0;
  maker_fees = pos 0;
  taker_fees = pos 0;
  passive_spread_capture = pos 0;
  inventory_mark_to_market = pos 0;
  terminal_liquidation_slippage = pos 0;
}

-- What `__init__` stores.
abbrev pub empty_ledger : ℤ → ℕ → AccountingLedger
empty_ledger rate inventory_limit = record {
  maker_fee_rate = rate;
  inventory_limit = inventory_limit;
  positions = [];
  marks = [];
  max_abs_positions = [];
  accounted_quantity_by_order = [];
  fill_keys = [];
  fills = [];
  liquidations = [];
  next_fill_id = 0;
  revision = 0;
  passive_fill_quantity = pos 0;
  liquidation_quantity = pos 0;
  totals = no_totals;
  settled = false;
  prepared_terminal_plan = none;
  plans_prepared = 0;
}

-- `__init__`
unfoldable pub make_ledger : ℤ → ℕ → Result AccountingLedger
make_ledger maker_fee_microusd_per_share inventory_limit = do
  rate ← validate_fee_rate maker_fee_microusd_per_share
  raise_if (not (valid_int inventory_limit 1 max_int64)) (fail ErrorCode.inventory_limit none none)
  ok (empty_ledger rate inventory_limit)
