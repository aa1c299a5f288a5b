-- ===== src/Accounting/Limits.antt =====
-- accounting.py: the inventory of every symbol stays within the limit of the ledger.
use itch_lab.Base.{Bool-cases, eqb, eqb_iff, subst, inl, inr, ℕ, arith, nat_eq, eqb, eqb_iff}
use itch_lab.Base.Int.{ℤ}
use itch_lab.Base.Dict.{lookup}
use itch_lab.Order.{SimulatedOrder}
use itch_lab.QueueModel.{QueueFill}
use itch_lab.Accounting.{AccountingLedger, empty_ledger}
use itch_lab.Accounting.Fills.{record_queue_fill}
use itch_lab.Accounting.FillOutcome.{IsBalancedLedger, WithinLimit, record_queue_fill-Outcome}
use itch_lab.Accounting.Snapshot.{update_mark}
use itch_lab.Accounting.Session.{Result-total, new_mark, update_unmarked, update_marked}

-- Every inventory is within the limit.
abbrev pub IsLimited : AccountingLedger → Type 0
IsLimited s = (k : ℕ) → WithinLimit k s

pub empty_ledger-IsLimited : (rate : ℤ) (limit : ℕ) → IsLimited (empty_ledger rate limit)
unfolding lookup
empty_ledger-IsLimited rate limit k = ground arith

module _ (f : QueueFill) (o : SimulatedOrder) (mk : ℕ) (s : AccountingLedger)
    (b : IsBalancedLedger s) where
  pub fill-IsLimited : IsLimited s → IsLimited (record_queue_fill f o mk s).1
  fill-IsLimited l = elim (record_queue_fill-Outcome f o mk s b) [
    | inl (_, (e, _)) ↦ rw e l
    | inr r ↦ λ k. elim (Bool-cases (eqb o.symbol_id k)) [
      | inl e ↦
          subst (λ i. WithinLimit i (record_queue_fill f o mk s).1) ((eqb_iff o.symbol_id k).0 e)
            r.within
      | inr n ↦ rw (r.others k (λ i. ground (arith, n, i)), r.limit) (l k)
    ]
  ]

module _ (k mk : ℕ) (s : AccountingLedger) (b : IsBalancedLedger s) (l : IsLimited s) where
  pub update_mark-IsLimited : IsLimited (update_mark k mk s).1
  update_mark-IsLimited = elim (Result-total (new_mark k mk s)) [
    | inr h ↦ rw (update_unmarked k mk s h) l
    | inl (m, h) ↦ elim (update_marked k mk s m h) [ inl e ↦ rw e l | inr e ↦ rw e l ]
  ]
