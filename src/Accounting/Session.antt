-- ===== src/Accounting/Session.antt =====
-- accounting.py: marks and fills in any order.
use itch_lab.Base.{
  ◌≡◌, refl, ◌∙◌, sym, ap, ◌⊎◌, inl, inr, ℕ, ◌+◌, false, arith, nat_eq, List, [], ◌∷◌,
}
use itch_lab.Base.Int.{ℤ, pos_part, neg_part, ◌+ℤ◌, int_laws}
use itch_lab.Base.Result.{Result, ok, err, is_ok}
use itch_lab.Order.{SimulatedOrder}
use itch_lab.QueueModel.{QueueFill}
use itch_lab.Accounting.{AccountingLedger, validate_mark_mid2, validate_symbol_id}
use itch_lab.Accounting.Marks.{Marked, apply_mark_to_copies}
use itch_lab.Accounting.Snapshot.{snapshot, update_mark, with_mark_to_market}
use itch_lab.Accounting.Fills.{record_queue_fill}
use itch_lab.Accounting.Balance.{MarkedAt, apply_mark_ok}
use itch_lab.Accounting.Identity.{marked, Covered-mark, marked-set_default}
use itch_lab.Accounting.FillOutcome.{IsBalancedLedger, record_queue_fill-Outcome}

pub snapshot_state : (s : AccountingLedger) → (snapshot s).1 ≡ s
unfolding snapshot
snapshot_state s = ground arith

-- The ledger that `update_mark` stores.
abbrev pub marked_ledger : Marked → AccountingLedger → AccountingLedger
marked_ledger m s = record s {
  marks = m.marks;
  totals = with_mark_to_market m.inventory_mark_to_market s.totals;
  revision = s.revision + 1;
}

pub Result-total : {A : Type 0} (r : Result A) → ((a : A) × (r ≡ ok a)) ⊎ (is_ok r ≡ false)
Result-total (ok a) = inl (a, refl)
Result-total (err e) = inr refl

module _ (k mk : ℕ) (s : AccountingLedger) where
  abbrev pub new_mark : Result Marked
  new_mark = apply_mark_to_copies k mk s.positions s.marks s.totals.inventory_mark_to_market

  pub update_unmarked : is_ok new_mark ≡ false → (update_mark k mk s).1 ≡ s
  unfolding update_mark validate_symbol_id validate_mark_mid2
  update_unmarked h = ground arith

  pub update_marked :
      (m : Marked)
      → new_mark ≡ ok m
      → ((update_mark k mk s).1 ≡ s) ⊎ ((update_mark k mk s).1 ≡ marked_ledger m s)
  unfolding update_mark validate_symbol_id validate_mark_mid2
  update_marked m h = ground (arith, snapshot_state (marked_ledger m s))

module _ (k mk : ℕ) (s : AccountingLedger) (m : Marked) (b : IsBalancedLedger s)
    (a : MarkedAt k mk s.positions s.marks s.totals.inventory_mark_to_market m) where
  remarked :
      (g p v v' t t' l : ℤ) → g +ℤ v ≡ p +ℤ t +ℤ l → v' +ℤ t ≡ v +ℤ t' → g +ℤ v' ≡ p +ℤ t' +ℤ l
  remarked g p v v' t t' l h e =
      omega (int_laws, ap pos_part h, ap neg_part h, ap pos_part e, ap neg_part e)

  marked_ledger-IsBalanced : IsBalancedLedger (marked_ledger m s)
  marked_ledger-IsBalanced = record {
    dict = b.dict;
    covered = rw a.marks (Covered-mark k mk s.positions s.marks b.covered);
    agrees =
        remarked _ _ (marked s.positions s.marks) (marked s.positions m.marks)
          s.totals.inventory_mark_to_market m.inventory_mark_to_market _ b.agrees
          (ap (λ x. x +ℤ s.totals.inventory_mark_to_market)
              (sym (marked-set_default k s.positions m.marks)
                ∙ ap (λ d. marked d m.marks) (sym a.positions))
            ∙ a.gain);
  }

pub update_mark-IsBalanced :
    (k mk : ℕ) (s : AccountingLedger) → IsBalancedLedger s → IsBalancedLedger (update_mark k mk s).1
update_mark-IsBalanced k mk s b = elim (Result-total (new_mark k mk s)) [
  | inr h ↦ rw (update_unmarked k mk s h) b
  | inl (m, h) ↦ elim (update_marked k mk s m h) [
    | inl e ↦ rw e b
    | inr e ↦ rw e (
        marked_ledger-IsBalanced k mk s m b (
          apply_mark_ok k mk s.positions s.marks s.totals.inventory_mark_to_market b.dict b.covered
            h))
  ]
]

pub fill-IsBalanced :
    (f : QueueFill) (o : SimulatedOrder) (mk : ℕ) (s : AccountingLedger)
    → IsBalancedLedger s
    → IsBalancedLedger (record_queue_fill f o mk s).1
fill-IsBalanced f o mk s b = elim (record_queue_fill-Outcome f o mk s b) [
  | inl (_, (e, _)) ↦ rw e b
  | inr r ↦ r.balanced
]

-- The calls of a session while it is open; a call that raises is caught.
pub data Call : Type 0 where
  marks : (symbol_id mark_mid2 : ℕ) → Call
  fills : QueueFill → SimulatedOrder → ℕ → Call

unfoldable pub run : List Call → AccountingLedger → AccountingLedger
run [] s = s
run (Call.marks k mk ∷ cs) s = run cs (update_mark k mk s).1
run (Call.fills f o mk ∷ cs) s = run cs (record_queue_fill f o mk s).1

-- Any sequence of marks and fills, raising ones included, keeps the accounts of a ledger in
-- agreement: no symbol stands twice, every held symbol is marked, and gross cash with the marked
-- value of the positions is the sum of passive spread, mark-to-market and liquidation slippage.
pub session-IsBalanced :
    (cs : List Call) (s : AccountingLedger) → IsBalancedLedger s → IsBalancedLedger (run cs s)
unfolding run
session-IsBalanced [] s b = b
session-IsBalanced (Call.marks k mk ∷ cs) s b =
    session-IsBalanced cs (update_mark k mk s).1 (update_mark-IsBalanced k mk s b)
session-IsBalanced (Call.fills f o mk ∷ cs) s b =
    session-IsBalanced cs (record_queue_fill f o mk s).1 (fill-IsBalanced f o mk s b)
