-- ===== src/Accounting/Snapshot.antt =====
-- accounting.py: the snapshot of the ledger, `update_mark` and `inventory`.
use itch_lab.Base.{
  ℕ, ◌+◌, Bool, not, Option, none, some, List, [], ◌∷◌, length, nat_eq, ltb, eqb, if◌then◌else◌,
}
use itch_lab.Base.Int.{ℤ, pos, eqb_ℤ}
use itch_lab.Base.Dict.{Dict, lookup}
use itch_lab.Base.Result.{Result, ok, err}
use itch_lab.Base.Action.{Action, ◌>>=◌, ◌>>◌, pure, lift, raise_if, gets, modify}
use itch_lab.Errors.{ErrorCode}
use itch_lab.Order.{fail}
use itch_lab.Accounting.{
  Totals, AccountingLedger, SymbolAccounting, marked_value, validate_symbol_id, validate_mark_mid2,
}
use itch_lab.Accounting.Marks.{
  Sums, position, apply_mark_to_copies, reconcile, validate_reconciliation,
}

pub record AccountingSnapshot : Type 0 where
  pub symbols : List SymbolAccounting
  pub passive_fill_count : ℕ
  pub passive_fill_quantity : ℤ
  pub liquidation_count : ℕ
  pub liquidation_quantity : ℤ
  pub totals : Totals
  pub sums : Sums
  pub settled : Bool

-- A key into a sorted list without repetitions.
unfoldable pub insert_key : ℕ → List ℕ → List ℕ
insert_key k [] = k ∷ []
insert_key k (j ∷ l) =
    let rest = insert_key k l in if ltb k j then k ∷ j ∷ l else if eqb k j then j ∷ l else j ∷ rest

unfoldable pub add_keys {ℓ} : {V : Type ℓ} → Dict ℕ V → List ℕ → List ℕ
add_keys [] l = l
add_keys ((k, _) ∷ d) l = insert_key k (add_keys d l)

-- `sorted(set(positions) | set(marks))`
unfoldable pub symbol_keys : Dict ℕ ℤ → Dict ℕ ℕ → List ℕ
symbol_keys positions marks = add_keys positions (add_keys marks [])

-- `0 if mark is None else _marked_value(inventory, mark)`
unfoldable pub value_at : ℤ → Option ℕ → Result ℤ
value_at inventory none =
    if not (eqb_ℤ inventory (pos 0)) then err (fail ErrorCode.price none none) else ok (pos 0)
value_at inventory (some mark) = marked_value inventory mark

-- `max_abs_positions.get(symbol_id, 0)`
abbrev pub max_abs_of : ℕ → Dict ℕ ℕ → ℕ
max_abs_of k d = elim (lookup k d) [ none ↦ 0 | some v ↦ v ]

-- The rows of the symbols, and the list of their marked values.
unfoldable pub symbol_rows : AccountingLedger → List ℕ → Result (List SymbolAccounting × List ℤ)
symbol_rows s [] = ok ([], [])
symbol_rows s (k ∷ keys) = elim (value_at (position k s.positions) (lookup k s.marks)) [
  | err e ↦ err e
  | ok v ↦ elim (symbol_rows s keys) [
    | err e ↦ err e
    | ok (rows, values) ↦ ok (
      (record {
        symbol_id = k;
        inventory = position k s.positions;
        mark_mid2 = lookup k s.marks;
        marked_value_microusd = v;
        max_abs_inventory = max_abs_of k s.max_abs_positions;
      })
          ∷ rows,
      v ∷ values,
    )
  ]
]

unfoldable pub snapshot : Action AccountingLedger AccountingSnapshot
snapshot = do
  s ← gets (λ s. s)
  rows ← lift (symbol_rows s (symbol_keys s.positions s.marks))
  sums ← lift (reconcile rows.1 s.totals)
  pure (record {
    symbols = rows.0;
    passive_fill_count = length s.fills;
    passive_fill_quantity = s.passive_fill_quantity;
    liquidation_count = length s.liquidations;
    liquidation_quantity = s.liquidation_quantity;
    totals = s.totals;
    sums = sums;
    settled = s.settled;
  })

-- The totals with a new mark-to-market account.
abbrev pub with_mark_to_market : ℤ → Totals → Totals
with_mark_to_market v t = record t { inventory_mark_to_market = v }

unfoldable pub update_mark : ℕ → ℕ → Action AccountingLedger AccountingSnapshot
update_mark symbol_id mark_mid2 = do
  s ← gets (λ s. s)
  raise_if s.settled (fail ErrorCode.simulation_anomaly none none)
  symbol ← lift (validate_symbol_id symbol_id)
  mark ← lift (validate_mark_mid2 mark_mid2)
  m ← lift (apply_mark_to_copies symbol mark s.positions s.marks s.totals.inventory_mark_to_market)
  _ ← lift (
      validate_reconciliation m.positions m.marks
        (with_mark_to_market m.inventory_mark_to_market s.totals))
  modify (λ s. record s {
    marks = m.marks;
    totals = with_mark_to_market m.inventory_mark_to_market s.totals;
    revision = s.revision + 1;
  })
  snapshot

-- `inventory(symbol_id)`
unfoldable pub inventory : ℕ → Action AccountingLedger ℤ
inventory symbol_id = do
  symbol ← lift (validate_symbol_id symbol_id)
  gets (λ s. position symbol s.positions)
