-- ===== src/Accounting/Marks.antt =====
-- accounting.py: marks, and the reconciliation of the accounts.
use itch_lab.Base.{ℕ, not, Option, none, some, List, [], ◌∷◌, nat_eq, if◌then◌else◌}
use itch_lab.Base.Int.{ℤ, pos, ◌+ℤ◌, ◌-ℤ◌, ◌*ℤ◌, neg, eqb_ℤ}
use itch_lab.Base.Dict.{Dict, lookup, insert}
use itch_lab.Base.Result.{Result, ok, err, ◌>>=◌, ◌>>◌, raise_if}
use itch_lab.Errors.{ErrorCode}
use itch_lab.Order.{fail}
use itch_lab.Accounting.{Totals, checked_int64, checked_sum_int64, marked_value}

-- `d.get(k, 0)`
abbrev pub position : ℕ → Dict ℕ ℤ → ℤ
position k d = elim (lookup k d) [ none ↦ pos 0 | some v ↦ v ]

-- `positions.setdefault(symbol_id, inventory)`
abbrev pub set_default : ℕ → ℤ → Dict ℕ ℤ → Dict ℕ ℤ
set_default k v d = elim (lookup k d) [ none ↦ insert k v d | some _ ↦ d ]

-- The copies of positions and marks, and the new mark-to-market total.
pub record Marked : Type 0 where
  pub positions : Dict ℕ ℤ
  pub marks : Dict ℕ ℕ
  pub inventory_mark_to_market : ℤ

-- The gain of the held inventory from the change of the mark, if there was a mark.
unfoldable pub mark_change : ℤ → ℕ → Option ℕ → ℤ → Result ℤ
mark_change inventory mark_mid2 none total = ok total
mark_change inventory mark_mid2 (some previous) total = do
  change ← checked_int64 (inventory *ℤ (pos mark_mid2 -ℤ pos previous) *ℤ pos 50)
  checked_int64 (total +ℤ change)

-- `_apply_mark_to_copies`
unfoldable pub apply_mark_to_copies : ℕ → ℕ → Dict ℕ ℤ → Dict ℕ ℕ → ℤ → Result Marked
apply_mark_to_copies symbol_id mark_mid2 positions marks total = do
  total' ← mark_change (position symbol_id positions) mark_mid2 (lookup symbol_id marks) total
  ok (record {
    positions = set_default symbol_id (position symbol_id positions) positions;
    marks = insert symbol_id mark_mid2 marks;
    inventory_mark_to_market = total';
  })

-- The loop over the positions in `_validate_reconciliation`.
unfoldable pub marked_values : Dict ℕ ℤ → Dict ℕ ℕ → Result (List ℤ)
marked_values [] marks = ok []
marked_values ((symbol_id, inventory) ∷ d) marks = elim (lookup symbol_id marks) [
  | none ↦
      if not (eqb_ℤ inventory (pos 0))
      then err (fail ErrorCode.price none none)
      else marked_values d marks
  | some mark ↦ do v ← marked_value inventory mark; vs ← marked_values d marks; ok (v ∷ vs)
]

pub record Sums : Type 0 where
  pub marked_inventory_value : ℤ
  pub signed_fees : ℤ
  pub cash : ℤ
  pub marked_pnl : ℤ

-- The sums that `_validate_reconciliation` and `snapshot` compute, and the comparison of the two
-- ways to the profit.
unfoldable pub reconcile : List ℤ → Totals → Result Sums
reconcile values t = do
  marked ← checked_sum_int64 values
  signed_fees ← checked_int64 (t.maker_fees +ℤ t.taker_fees)
  gross ← checked_int64 (t.gross_passive_cash +ℤ t.gross_liquidation_cash)
  cash ← checked_int64 (gross -ℤ signed_fees)
  marked_pnl ← checked_int64 (cash +ℤ marked)
  fee_contribution ← checked_int64 (neg signed_fees)
  decomposition ← checked_sum_int64 (
      t.passive_spread_capture ∷ t.inventory_mark_to_market ∷ t.terminal_liquidation_slippage
      ∷ fee_contribution ∷ [])
  raise_if (not (eqb_ℤ marked_pnl decomposition)) (fail ErrorCode.invariant none none)
  ok (record {
    marked_inventory_value = marked;
    signed_fees = signed_fees;
    cash = cash;
    marked_pnl = marked_pnl;
  })

-- `_validate_reconciliation`, with the totals that the caller replaces.
unfoldable pub validate_reconciliation : Dict ℕ ℤ → Dict ℕ ℕ → Totals → Result Sums
validate_reconciliation positions marks t = do
  values ← marked_values positions marks
  reconcile values t
