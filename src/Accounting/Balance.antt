-- ===== src/Accounting/Balance.antt =====
-- accounting.py: a mark and a trade keep the accounts in agreement.
use itch_lab.Base.{◌≡◌, refl, ◌∙◌, sym, ap, ap₂, ℕ, Option, none, some, arith, nat_eq}
use itch_lab.Base.Int.{ℤ, pos, pos_part, neg_part, ◌+ℤ◌, ◌-ℤ◌, ◌*ℤ◌, int_laws}
use itch_lab.Base.Dict.{Dict, lookup, insert, lookup-insert}
use itch_lab.Base.Result.{ok, >>=-eq-ok}
use itch_lab.Accounting.{checked_int64, mark_value}
use itch_lab.Accounting.Algebra.{mark_value-sub, mark_value-zero, mark_value-add}
use itch_lab.Accounting.Identity.{
  value_of, marked, Covered, marked-mark, marked-insert, marked-set_default, set_default-IsDict,
  Covered-mark, Covered-set_default, Covered-position,
}
use itch_lab.Base.Dict.{IsDict}
use itch_lab.Accounting.Marks.{Marked, position, set_default, mark_change, apply_mark_to_copies}
use itch_lab.Accounting.Reconcile.{Quiet, Quiet-bind, checked_int64_ok, checked_int64-Quiet}

change_sum : (t c w v : ℤ) → c ≡ w -ℤ v → t +ℤ c +ℤ v ≡ t +ℤ w
change_sum t c w v h = omega (int_laws, ap pos_part h, ap neg_part h)

mark_change_ok :
    (v : ℤ) (m : ℕ) (prev : Option ℕ) (total : ℤ) {total' : ℤ}
    → ((prev ≡ none) → v ≡ pos 0)
    → mark_change v m prev total ≡ ok total'
    → total' +ℤ value_of v prev ≡ total +ℤ mark_value v m
unfolding mark_change
mark_change_ok v m none total z h =
    ap₂ (λ x y. x +ℤ y) (ground arith) refl
    ∙ ap (λ x. total +ℤ x) (sym (mark_value-zero m) ∙ ap (λ x. mark_value x m) (sym (z refl)))
mark_change_ok v m (some p) total z h =
    let (c, e, f) =
      >>=-eq-ok (checked_int64 (v *ℤ (pos m -ℤ pos p) *ℤ pos 50)) (λ c. checked_int64 (total +ℤ c))
        h in
    ap (λ x. x +ℤ mark_value v p) (checked_int64_ok (total +ℤ c) f)
    ∙ change_sum total c (mark_value v m) (mark_value v p)
        (checked_int64_ok _ e ∙ mark_value-sub v m p)

mark_change-Quiet :
    (v : ℤ) (m : ℕ) (prev : Option ℕ) (total : ℤ) → Quiet (mark_change v m prev total)
unfolding mark_change
mark_change-Quiet v m none total = tt
mark_change-Quiet v m (some p) total =
    Quiet-bind (checked_int64 (v *ℤ (pos m -ℤ pos p) *ℤ pos 50)) (λ c. checked_int64 (total +ℤ c))
      (checked_int64-Quiet _) λ c _. checked_int64-Quiet (total +ℤ c)

cancel : (a a' t t' v w : ℤ) → a' +ℤ v ≡ a +ℤ w → t' +ℤ v ≡ t +ℤ w → a' +ℤ t ≡ a +ℤ t'
cancel a a' t t' v w h k =
    omega (int_laws, ap pos_part h, ap neg_part h, ap pos_part k, ap neg_part k)

-- What a mark leaves: the copies are well formed, the symbol is marked, its position is as it was,
-- and the gain of the positions stands in the mark-to-market account.
pub record MarkedAt (k m : ℕ) (d : Dict ℕ ℤ) (ms : Dict ℕ ℕ) (total : ℤ) (r : Marked) : Type 0 where
  pub positions : r.positions ≡ set_default k (position k d) d
  pub marks : r.marks ≡ insert k m ms
  pub gain : marked r.positions r.marks +ℤ total ≡ marked d ms +ℤ r.inventory_mark_to_market

-- A mark that succeeds on well formed accounts sets the symbol's mark, leaves its position as it was,
-- zero if it had none, and adds to the mark-to-market account exactly the change of the marked value
-- of all positions.
pub apply_mark_ok :
    (k m : ℕ) (d : Dict ℕ ℤ) (ms : Dict ℕ ℕ) (total : ℤ) {r : Marked}
    → IsDict d
    → Covered d ms
    → apply_mark_to_copies k m d ms total ≡ ok r
    → MarkedAt k m d ms total r
unfolding apply_mark_to_copies
apply_mark_ok k m d ms total {r} dict cov h =
    let (t, e, f) =
      >>=-eq-ok (mark_change (position k d) m (lookup k ms) total)
        (λ t. ok (record {
          positions = set_default k (position k d) d;
          marks = insert k m ms;
          inventory_mark_to_market = t;
        }))
        h in
    let rp : r.positions ≡ set_default k (position k d) d = ground arith in
    let rm : r.marks ≡ insert k m ms = ground arith in
    let rt : r.inventory_mark_to_market ≡ t = ground arith in
    record {
      positions = rp;
      marks = rm;
      gain =
          ap (λ x. x +ℤ total) (ap₂ marked rp rm ∙ marked-set_default k d (insert k m ms))
          ∙ cancel (marked d ms) (marked d (insert k m ms)) total t
              (value_of (position k d) (lookup k ms)) (mark_value (position k d) m)
              (marked-mark k m d ms dict)
              (mark_change_ok (position k d) m (lookup k ms) total (Covered-position k d ms cov) e)
          ∙ ap (λ x. marked d ms +ℤ x) (sym rt);
    }

pub apply_mark-Quiet :
    (k m : ℕ) (d : Dict ℕ ℤ) (ms : Dict ℕ ℕ) (total : ℤ)
    → Quiet (apply_mark_to_copies k m d ms total)
unfolding apply_mark_to_copies
apply_mark-Quiet k m d ms total =
    Quiet-bind (mark_change (position k d) m (lookup k ms) total) _
      (mark_change-Quiet (position k d) m (lookup k ms) total) λ t _. tt

module _ (k m : ℕ) (d : Dict ℕ ℤ) (ms : Dict ℕ ℕ) (total : ℤ) {r : Marked}
    (a : MarkedAt k m d ms total r) where
  pub marked-IsDict : IsDict d → IsDict r.positions
  marked-IsDict h = rw a.positions (set_default-IsDict k (position k d) d h)

  pub marked-Covered : Covered d ms → Covered r.positions r.marks
  marked-Covered h =
      rw (a.positions, a.marks) (Covered-set_default k d (insert k m ms) (Covered-mark k m d ms h))

  pub marked-lookup : lookup k r.marks ≡ some m
  marked-lookup = ap (lookup k) a.marks ∙ ground (arith, lookup-insert k k m ms)

  -- A trade at the marked symbol changes the value of the positions by the trade's marked value.
  pub trade_value :
      (w : ℤ)
      → marked (insert k (position k r.positions +ℤ w) r.positions) r.marks
          +ℤ mark_value (position k r.positions) m
        ≡ marked r.positions r.marks +ℤ (mark_value (position k r.positions) m +ℤ mark_value w m)
  trade_value w =
      let p = position k r.positions in
      ap (λ x. marked (insert k (p +ℤ w) r.positions) r.marks +ℤ value_of p x) (sym marked-lookup)
      ∙ marked-insert k (p +ℤ w) r.positions r.marks
      ∙ ap (λ x. marked r.positions r.marks +ℤ value_of (p +ℤ w) x) marked-lookup
      ∙ ap (λ x. marked r.positions r.marks +ℤ x) (mark_value-add p w m)

-- A mark and a trade: the accounts agree again.
pub trade_balance :
    (g psc mtm slip m0 m1 mtm1 m2 v w cash gain : ℤ)
    → g +ℤ m0 ≡ psc +ℤ mtm +ℤ slip
    → m1 +ℤ mtm ≡ m0 +ℤ mtm1
    → m2 +ℤ v ≡ m1 +ℤ (v +ℤ w)
    → cash +ℤ w ≡ gain
    → g +ℤ cash +ℤ m2 ≡ psc +ℤ gain +ℤ mtm1 +ℤ slip
trade_balance g psc mtm slip m0 m1 mtm1 m2 v w cash gain h1 h2 h3 h4 = omega (
  int_laws,
  ap pos_part h1,
  ap neg_part h1,
  ap pos_part h2,
  ap neg_part h2,
  ap pos_part h3,
  ap neg_part h3,
  ap pos_part h4,
  ap neg_part h4,
)
