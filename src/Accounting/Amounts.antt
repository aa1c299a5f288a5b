-- ===== src/Accounting/Amounts.antt =====
-- accounting.py: the amounts of a passive fill keep the accounts in agreement.
use itch_lab.Base.{◌≡◌, ◌∙◌, sym, ap, ℕ, Bool, true, false, arith, not, nat_eq}
use itch_lab.Base.Int.{ℤ, pos, ◌+ℤ◌, ◌*ℤ◌, int_laws}
use itch_lab.Base.Dict.{Dict, insert}
use itch_lab.Base.Result.{Result, ok, ◌>>◌, raise_if, >>=-eq-ok}
use itch_lab.Errors.{SimulationError}
use itch_lab.Order.{SimulatedOrder}
use itch_lab.QueueModel.{QueueFill}
use itch_lab.Accounting.{
  Totals, AccountingLedger, checked_int64, trade_cash_delta, trade_fee, cash_value,
  mark_relative_value, relative_value, mark_value,
}
use itch_lab.Accounting.Algebra.{trade_identity}
use itch_lab.Accounting.Identity.{marked, Covered}
use itch_lab.Base.Dict.{IsDict}
use itch_lab.Accounting.Marks.{Marked, position}
use itch_lab.Accounting.Plan.{FillAmounts, fill_totals, fill_amounts}
use itch_lab.Accounting.Reconcile.{
  Quiet, is_invariant, Quiet-bind, checked_int64_ok, checked_int64-Quiet, Agrees,
}
use itch_lab.Accounting.Balance.{MarkedAt, trade_value, trade_balance}

-- The accounts of a ledger: positions and marks are dictionaries of their keys, each held position
-- is marked, and the two ways to the profit agree.
pub record IsBalanced (d : Dict ℕ ℤ) (ms : Dict ℕ ℕ) (t : Totals) : Type 0 where
  pub dict : IsDict d
  pub covered : Covered d ms
  pub agrees : Agrees d ms t

regroup : (gp gl c v : ℤ) → gp +ℤ c +ℤ gl +ℤ v ≡ gp +ℤ gl +ℤ c +ℤ v
regroup gp gl c v = omega int_laws

-- A mark and a trade of `q` shares at `p` keep the agreement, with the totals of a fill.
pub fill-Agrees :
    (k m p q : ℕ) (side : ℤ) (d : Dict ℕ ℤ) (ms : Dict ℕ ℕ) (t : Totals) (r : Marked)
    → MarkedAt k m d ms t.inventory_mark_to_market r
    → Agrees d ms t
    → (cash fees spread : ℤ) → cash ≡ t.gross_passive_cash +ℤ cash_value side p q
    → spread ≡ t.passive_spread_capture +ℤ relative_value side p q m
    → Agrees
        (insert k (position k r.positions +ℤ side *ℤ pos q) r.positions)
        r.marks
        (fill_totals cash fees spread r.inventory_mark_to_market t)
fill-Agrees k m p q side d ms t r a h cash fees spread ec es =
    let v = marked (insert k (position k r.positions +ℤ side *ℤ pos q) r.positions) r.marks in
    ap (λ x. x +ℤ t.gross_liquidation_cash +ℤ v) ec
    ∙ regroup t.gross_passive_cash t.gross_liquidation_cash (cash_value side p q) v
    ∙ trade_balance (t.gross_passive_cash +ℤ t.gross_liquidation_cash) t.passive_spread_capture
        t.inventory_mark_to_market t.terminal_liquidation_slippage (marked d ms)
        (marked r.positions r.marks) r.inventory_mark_to_market v
        (mark_value (position k r.positions) m) (mark_value (side *ℤ pos q) m) (cash_value side p q)
        (relative_value side p q m) h a.gain
        (trade_value k m d ms t.inventory_mark_to_market a (side *ℤ pos q))
        (trade_identity side p q m)
    ∙ ap (λ x. x +ℤ r.inventory_mark_to_market +ℤ t.terminal_liquidation_slippage) (sym es)

pub guard_ok :
    {A : Type 0} (b : Bool) (e : SimulationError) (r : Result A) {x : A}
    → (raise_if b e >> r) ≡ ok x
    → (b ≡ false) × (r ≡ ok x)
guard_ok b e r h = ground arith

pub ok-inj : {A : Type 0} {x y : A} → ok x ≡ ok y → x ≡ y
ok-inj h = cc

pub not-false : (b : Bool) → not b ≡ false → b ≡ true
not-false b h = ground arith

cash_delta_ok :
    (side : ℤ) (p q : ℕ) {c : ℤ} → trade_cash_delta side p q ≡ ok c → c ≡ cash_value side p q
unfolding trade_cash_delta
cash_delta_ok side p q h = checked_int64_ok _ h

gain_ok :
    (side : ℤ) (p q m : ℕ) {g : ℤ}
    → mark_relative_value side p q m ≡ ok g
    → g ≡ relative_value side p q m
unfolding mark_relative_value
gain_ok side p q m h = checked_int64_ok _ h

pub raise-Quiet :
    (b : Bool) (e : SimulationError) → is_invariant e.code ≡ false → Quiet (raise_if b e)
raise-Quiet b e h = ground arith

module _ (s : AccountingLedger) (f : QueueFill) (o : SimulatedOrder) (mark : ℕ) where
  pub fill_amounts_ok :
      {a : FillAmounts}
      → fill_amounts s f o mark ≡ ok a
      → (a.gross_passive_cash
          ≡ s.totals.gross_passive_cash +ℤ cash_value o.side f.price4 f.quantity)
        × (a.passive_spread_capture
            ≡ s.totals.passive_spread_capture +ℤ relative_value o.side f.price4 f.quantity mark)
  unfolding fill_amounts
  fill_amounts_ok {a} h =
      let (c, ec, h3) = >>=-eq-ok (trade_cash_delta o.side f.price4 f.quantity) _ h in
      let (fee, ef, h4) = >>=-eq-ok (trade_fee s.maker_fee_rate f.quantity) _ h3 in
      let (cash, eh, h5) = >>=-eq-ok (checked_int64 (s.totals.gross_passive_cash +ℤ c)) _ h4 in
      let (fees, es, h6) = >>=-eq-ok (checked_int64 (s.totals.maker_fees +ℤ fee)) _ h5 in
      let (g, eg, h7) = >>=-eq-ok (mark_relative_value o.side f.price4 f.quantity mark) _ h6 in
      let (spread, ep, h8) =
        >>=-eq-ok (checked_int64 (s.totals.passive_spread_capture +ℤ g)) _ h7 in
      let (quantity, eq, h9) =
        >>=-eq-ok (checked_int64 (s.passive_fill_quantity +ℤ pos f.quantity)) _ h8 in
      let r = sym (ok-inj h9) in
      (
        ap (λ (x : FillAmounts). x.gross_passive_cash) r
            ∙ checked_int64_ok _ eh
            ∙ ap (λ x. s.totals.gross_passive_cash +ℤ x)
                (cash_delta_ok o.side f.price4 f.quantity ec),
        ap (λ (x : FillAmounts). x.passive_spread_capture) r
            ∙ checked_int64_ok _ ep
            ∙ ap (λ x. s.totals.passive_spread_capture +ℤ x)
                (gain_ok o.side f.price4 f.quantity mark eg),
      )

  pub fill_amounts-Quiet : Quiet (fill_amounts s f o mark)
  unfolding fill_amounts trade_cash_delta trade_fee mark_relative_value
  fill_amounts-Quiet =
      Quiet-bind (checked_int64 (cash_value o.side f.price4 f.quantity)) _ (checked_int64-Quiet _)
        λ c _.
          Quiet-bind (checked_int64 (s.maker_fee_rate *ℤ pos f.quantity)) _ (checked_int64-Quiet _)
            λ fee _.
              Quiet-bind (checked_int64 (s.totals.gross_passive_cash +ℤ c)) _
                (checked_int64-Quiet _)
                λ cash _.
                  Quiet-bind (checked_int64 (s.totals.maker_fees +ℤ fee)) _ (checked_int64-Quiet _)
                    λ fees _.
                      Quiet-bind (checked_int64 (relative_value o.side f.price4 f.quantity mark)) _
                        (checked_int64-Quiet _)
                        λ g _.
                          Quiet-bind (checked_int64 (s.totals.passive_spread_capture +ℤ g)) _
                            (checked_int64-Quiet _)
                            λ spread _.
                              Quiet-bind (checked_int64 (s.passive_fill_quantity +ℤ pos f.quantity))
                                _ (checked_int64-Quiet _) λ quantity _. tt
