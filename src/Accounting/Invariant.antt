-- ===== src/Accounting/Invariant.antt =====
-- accounting.py: the plan of a passive fill keeps the accounts in agreement and the inventory in
-- its limit.
use itch_lab.Base.{◌≡◌, refl, ℕ, true, some, not, nat_eq, subst}
use itch_lab.Base.Int.{ℤ, pos, neg, ◌+ℤ◌, ◌*ℤ◌}
use itch_lab.Base.Dict.{insert}
use itch_lab.Base.Result.{Result, ok, raise_if, >>=-eq-ok}
use itch_lab.Errors.{ErrorCode, SimulationError}
use itch_lab.Order.{SimulatedOrder, fail}
use itch_lab.QueueModel.{QueueFill}
use itch_lab.Accounting.{Totals, AccountingLedger, valid_ℤ}
use itch_lab.Accounting.Identity.{Covered}
use itch_lab.Base.Dict.{IsDict}
use itch_lab.Accounting.Marks.{Marked, position, apply_mark_to_copies, validate_reconciliation}
use itch_lab.Accounting.Plan.{FillPlan, FillAmounts, fill_totals, fill_amounts, plan_fill}
use itch_lab.Accounting.Reconcile.{Quiet, Quiet-bind, Agrees, validate_reconciliation-Quiet}
use itch_lab.Accounting.Balance.{MarkedAt, apply_mark_ok, apply_mark-Quiet}
use itch_lab.Accounting.Amounts.{
  fill-Agrees, guard_ok, ok-inj, not-false, raise-Quiet, fill_amounts_ok, fill_amounts-Quiet,
}

module _ (s : AccountingLedger) (f : QueueFill) (o : SimulatedOrder) (mark : ℕ) where
  abbrev at_mark : Result Marked
  at_mark =
      apply_mark_to_copies o.symbol_id mark s.positions s.marks s.totals.inventory_mark_to_market

  abbrev inventory_after : Marked → ℤ
  inventory_after m = position o.symbol_id m.positions +ℤ o.side *ℤ pos f.quantity

  abbrev over_limit : SimulationError
  over_limit =
      fail ErrorCode.inventory_limit (some f.simulated_order_id) (some f.market_message_index)

  abbrev totals_after : FillAmounts → Marked → Totals
  totals_after a m =
      fill_totals a.gross_passive_cash a.maker_fees a.passive_spread_capture
        m.inventory_mark_to_market s.totals

  module _ (dict : IsDict s.positions) (cov : Covered s.positions s.marks) where
    planned-Agrees :
        (m : Marked) (a : FillAmounts)
        → at_mark ≡ ok m
        → fill_amounts s f o mark ≡ ok a
        → Agrees s.positions s.marks s.totals
        → Agrees (insert o.symbol_id (inventory_after m) m.positions) m.marks (totals_after a m)
    planned-Agrees m a em ea h =
        let (ec, es) = fill_amounts_ok s f o mark ea in
        fill-Agrees o.symbol_id mark f.price4 f.quantity o.side s.positions s.marks s.totals m
          (apply_mark_ok o.symbol_id mark s.positions s.marks s.totals.inventory_mark_to_market dict
            cov em)
          h a.gross_passive_cash a.maker_fees a.passive_spread_capture ec es

    -- The plan of a fill raises no invariant error where the accounts agree.
    pub plan_fill-Quiet : Agrees s.positions s.marks s.totals → Quiet (plan_fill s f o mark)
    unfolding plan_fill
    plan_fill-Quiet h =
        Quiet-bind at_mark _
          (apply_mark-Quiet o.symbol_id mark s.positions s.marks s.totals.inventory_mark_to_market)
          λ m em.
            Quiet-bind
              (raise_if
                (not (
                  valid_ℤ (inventory_after m) (neg (pos s.inventory_limit))
                    (pos s.inventory_limit)))
                over_limit)
              _ (raise-Quiet _ over_limit refl)
              λ w _. Quiet-bind (fill_amounts s f o mark) _ (fill_amounts-Quiet s f o mark) λ a ea.
                Quiet-bind
                  (validate_reconciliation (insert o.symbol_id (inventory_after m) m.positions)
                    m.marks (totals_after a m))
                  _ (validate_reconciliation-Quiet _ _ _ (planned-Agrees m a em ea h)) λ v ev. tt

    -- A plan: the copies are marked, the new inventory is within the limit, and the accounts agree
    -- with the new position.
    pub record PlanOf (p : FillPlan) : Type 0 where
      pub copies : Marked
      pub marked_at :
          MarkedAt o.symbol_id mark s.positions s.marks s.totals.inventory_mark_to_market copies
      pub positions : p.positions ≡ copies.positions
      pub marks : p.marks ≡ copies.marks
      pub after :
          p.inventory_after ≡ position o.symbol_id copies.positions +ℤ o.side *ℤ pos f.quantity
      pub within :
          valid_ℤ p.inventory_after (neg (pos s.inventory_limit)) (pos s.inventory_limit) ≡ true
      pub agrees :
          Agrees s.positions s.marks s.totals
          → Agrees (insert o.symbol_id p.inventory_after p.positions) p.marks p.totals

    pub plan_fill_ok : {p : FillPlan} → plan_fill s f o mark ≡ ok p → PlanOf p
    unfolding plan_fill
    plan_fill_ok {p} h =
        let (m, em, h1) = >>=-eq-ok at_mark _ h in
        let (w, h2) = guard_ok _ _ _ h1 in
        let (a, ea, h3) = >>=-eq-ok (fill_amounts s f o mark) _ h2 in
        let (u, ev, h4) =
          >>=-eq-ok
            (validate_reconciliation (insert o.symbol_id (inventory_after m) m.positions) m.marks
              (totals_after a m))
            _ h3 in
        subst PlanOf (ok-inj h4) (record {
          copies = m;
          marked_at =
              apply_mark_ok o.symbol_id mark s.positions s.marks s.totals.inventory_mark_to_market
                dict cov em;
          positions = refl;
          marks = refl;
          after = refl;
          within = not-false _ w;
          agrees = planned-Agrees m a em ea;
        })
