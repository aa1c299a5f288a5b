-- ===== src/Accounting/Reconcile.antt =====
-- accounting.py: the two ways to the profit agree wherever the accounts agree, so the check of
-- `_validate_reconciliation` never finds them different.
use itch_lab.Base.{
  ◌≡◌, refl, ◌∙◌, sym, ap, ap₂, inl, inr, ℕ, Bool, true, false, none, some, List, [], ◌∷◌, arith,
  nat_eq, if◌then◌else◌, Option-cases, not,
}
use itch_lab.Base.Int.{
  ℤ, pos, neg, ◌+ℤ◌, ◌-ℤ◌, int_laws, eqb_ℤ, eqb_ℤ_iff, add_zero, zero_+ℤ, +ℤ_assoc,
}
use itch_lab.Base.Dict.{Dict, lookup}
use itch_lab.Base.Result.{Result, ok, err, ◌>>=◌, ◌>>◌, raise_if, >>=-eq-ok}
use itch_lab.Order.{fail}
use itch_lab.Errors.{ErrorCode, SimulationError}
use itch_lab.Accounting.{
  Totals, checked_int64, checked_sum_from, checked_sum_int64, marked_value, mark_value,
}
use itch_lab.Accounting.Algebra.{pos_part-neg, neg_part-neg}
use itch_lab.Accounting.Identity.{marked}
use itch_lab.Accounting.Marks.{marked_values, reconcile, validate_reconciliation}

abbrev pub is_invariant : ErrorCode → Bool
is_invariant ErrorCode.invariant = true
is_invariant _ = false

-- A call that does not raise an invariant error.
abbrev pub Quiet : {A : Type 0} → Result A → Type 0
Quiet (ok _) = Unit {0}
Quiet (err e) = is_invariant e.code ≡ false

pub Quiet-bind :
    {A B : Type 0} (m : Result A) (f : A → Result B)
    → Quiet m
    → ((a : A) → m ≡ ok a → Quiet (f a))
    → Quiet (m >>= f)
Quiet-bind (ok a) f q h = h a refl
Quiet-bind (err e) f q h = q

-- A passed check returns its argument.
pub checked_int64_ok : (v : ℤ) {x : ℤ} → checked_int64 v ≡ ok x → x ≡ v
unfolding checked_int64
checked_int64_ok v h = ground arith

pub checked_int64-Quiet : (v : ℤ) → Quiet (checked_int64 v)
unfolding checked_int64
checked_int64-Quiet v = ground arith

abbrev pub sum_from : ℤ → List ℤ → ℤ
sum_from total [] = total
sum_from total (v ∷ vs) = sum_from (total +ℤ v) vs

checked_sum_from-Quiet : (t : ℤ) (vs : List ℤ) → Quiet (checked_sum_from t vs)
unfolding checked_sum_from
checked_sum_from-Quiet t [] = tt
checked_sum_from-Quiet t (v ∷ vs) =
    Quiet-bind (checked_int64 (t +ℤ v)) (λ u. checked_sum_from u vs) (checked_int64-Quiet (t +ℤ v))
      λ u e. checked_sum_from-Quiet u vs

pub checked_sum_from_ok :
    (t : ℤ) (vs : List ℤ) {x : ℤ} → checked_sum_from t vs ≡ ok x → x ≡ sum_from t vs
unfolding checked_sum_from
checked_sum_from_ok t [] h = ground arith
checked_sum_from_ok t (v ∷ vs) h =
    let (u, e, f) = >>=-eq-ok (checked_int64 (t +ℤ v)) (λ u. checked_sum_from u vs) h in
    checked_sum_from_ok u vs f ∙ ap (λ y. sum_from y vs) (checked_int64_ok (t +ℤ v) e)

module _ (k : ℕ) (v : ℤ) (d : Dict ℕ ℤ) (ms : Dict ℕ ℕ) where
  values_none :
      lookup k ms ≡ none
      → marked_values ((k, v) ∷ d) ms ≡ (
          if not (eqb_ℤ v (pos 0))
          then err (fail ErrorCode.price none none)
          else marked_values d ms)
  unfolding marked_values
  values_none e = ground arith

  values_some :
      (m : ℕ)
      → lookup k ms ≡ some m
      → marked_values ((k, v) ∷ d) ms
        ≡ (marked_value v m >>= λ x. marked_values d ms >>= λ xs. ok (x ∷ xs))
  unfolding marked_values
  values_some m e = ground arith

pub marked_values-Quiet : (d : Dict ℕ ℤ) (ms : Dict ℕ ℕ) → Quiet (marked_values d ms)
marked_values-Quiet [] ms = unfold marked_values in tt
marked_values-Quiet ((k, v) ∷ d) ms = elim (Option-cases (lookup k ms)) [
  | inl e ↦ rw (values_none k v d ms e) (ground (arith, marked_values-Quiet d ms))
  | inr (m, e) ↦ rw (values_some k v d ms m e) (
      Quiet-bind (marked_value v m) (λ x. marked_values d ms >>= λ xs. ok (x ∷ xs))
        (unfold marked_value in checked_int64-Quiet (mark_value v m))
        λ x _.
          Quiet-bind (marked_values d ms) (λ xs. ok (x ∷ xs)) (marked_values-Quiet d ms) λ xs _. tt)
]

-- The marked values add up to the value of the positions.
pub marked_values_ok :
    (d : Dict ℕ ℤ) (ms : Dict ℕ ℕ) (vs : List ℤ) (t : ℤ)
    → marked_values d ms ≡ ok vs
    → sum_from t vs ≡ t +ℤ marked d ms
unfolding marked
marked_values_ok [] ms vs t h = unfold marked_values in ground (arith, add_zero t)
marked_values_ok ((k, v) ∷ d) ms vs t h = elim (Option-cases (lookup k ms)) [
  | inl e ↦
      ground (arith, values_none k v d ms e, marked_values_ok d ms vs t, zero_+ℤ (marked d ms))
  | inr (m, e) ↦
      let (x, f, g) =
        >>=-eq-ok (marked_value v m) (λ x. marked_values d ms >>= λ xs. ok (x ∷ xs))
          (sym (values_some k v d ms m e) ∙ h) in
      let (xs, a, b) = >>=-eq-ok (marked_values d ms) (λ xs. ok (x ∷ xs)) g in
      let y : x ≡ mark_value v m = unfold marked_value in checked_int64_ok (mark_value v m) f in
      ground (arith, marked_values_ok d ms xs (t +ℤ x) a, +ℤ_assoc t x (marked d ms))
]

-- The accounts agree: cash with the value of the positions is spread, mark-to-market and slippage.
abbrev pub Agrees : Dict ℕ ℤ → Dict ℕ ℕ → Totals → Type 0
Agrees d ms t =
    t.gross_passive_cash +ℤ t.gross_liquidation_cash +ℤ marked d ms
    ≡ t.passive_spread_capture +ℤ t.inventory_mark_to_market +ℤ t.terminal_liquidation_slippage

left_side : (g f m : ℤ) → g -ℤ f +ℤ m ≡ g +ℤ m -ℤ f
left_side g f m = omega int_laws

right_side : (a b c f : ℤ) → pos 0 +ℤ a +ℤ b +ℤ c +ℤ neg f ≡ a +ℤ b +ℤ c -ℤ f
right_side a b c f = omega (int_laws, pos_part-neg f, neg_part-neg f)

-- The two results are equal, from the steps that compute them.
balanced :
    (g f m a b c cash pnl nf dec : ℤ)
    → cash ≡ g -ℤ f
    → pnl ≡ cash +ℤ m
    → nf ≡ neg f
    → dec ≡ pos 0 +ℤ a +ℤ b +ℤ c +ℤ nf
    → g +ℤ m ≡ a +ℤ b +ℤ c
    → pnl ≡ dec
balanced g f m a b c cash pnl nf dec ec ep en ed h =
    ep
    ∙ ap (λ x. x +ℤ m) ec
    ∙ left_side g f m
    ∙ ap (λ x. x -ℤ f) h
    ∙ sym (right_side a b c f)
    ∙ sym (ap (λ x. pos 0 +ℤ a +ℤ b +ℤ c +ℤ x) en)
    ∙ sym ed

equal-Quiet :
    {A : Type 0} (x y : ℤ) (r : A) (e : SimulationError)
    → x ≡ y
    → Quiet (raise_if (not (eqb_ℤ x y)) e >> ok r)
equal-Quiet x y r e h = ground (arith, eqb_ℤ_iff x y)

-- Where the accounts agree with the sum of the values, the comparison does not fail.
pub reconcile-Quiet :
    (vs : List ℤ) (t : Totals)
    → t.gross_passive_cash +ℤ t.gross_liquidation_cash +ℤ sum_from (pos 0) vs
      ≡ t.passive_spread_capture +ℤ t.inventory_mark_to_market +ℤ t.terminal_liquidation_slippage
    → Quiet (reconcile vs t)
unfolding reconcile
reconcile-Quiet vs t h =
    Quiet-bind (checked_sum_int64 vs) _ (checked_sum_from-Quiet (pos 0) vs) λ marked em.
      Quiet-bind (checked_int64 (t.maker_fees +ℤ t.taker_fees)) _ (checked_int64-Quiet _) λ fees ef.
        Quiet-bind (checked_int64 (t.gross_passive_cash +ℤ t.gross_liquidation_cash)) _
          (checked_int64-Quiet _)
          λ gross eg.
            Quiet-bind (checked_int64 (gross -ℤ fees)) _ (checked_int64-Quiet _) λ cash ec.
              Quiet-bind (checked_int64 (cash +ℤ marked)) _ (checked_int64-Quiet _) λ pnl ep.
                Quiet-bind (checked_int64 (neg fees)) _ (checked_int64-Quiet _) λ nf en.
                  Quiet-bind
                    (checked_sum_int64 (
                      t.passive_spread_capture ∷ t.inventory_mark_to_market
                      ∷ t.terminal_liquidation_slippage ∷ nf ∷ []))
                    _ (checked_sum_from-Quiet (pos 0) _)
                    λ dec ed. equal-Quiet pnl dec _ _ (
                      balanced gross fees marked t.passive_spread_capture t.inventory_mark_to_market
                        t.terminal_liquidation_slippage cash pnl nf dec (checked_int64_ok _ ec)
                        (checked_int64_ok _ ep) (checked_int64_ok _ en)
                        (checked_sum_from_ok (pos 0) _ ed)
                        (ap₂ (λ x y. x +ℤ y) (checked_int64_ok _ eg)
                            (checked_sum_from_ok (pos 0) vs em)
                          ∙ h))

-- The reconciliation of accounts that agree raises no invariant error.
pub validate_reconciliation-Quiet :
    (d : Dict ℕ ℤ) (ms : Dict ℕ ℕ) (t : Totals)
    → Agrees d ms t
    → Quiet (validate_reconciliation d ms t)
unfolding validate_reconciliation
validate_reconciliation-Quiet d ms t h =
    Quiet-bind (marked_values d ms) (λ vs. reconcile vs t) (marked_values-Quiet d ms)
      λ vs e. reconcile-Quiet vs t (
        ap (λ x. t.gross_passive_cash +ℤ t.gross_liquidation_cash +ℤ x)
          (marked_values_ok d ms vs (pos 0) e ∙ zero_+ℤ (marked d ms))
        ∙ h)
