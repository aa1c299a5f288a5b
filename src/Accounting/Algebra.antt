-- ===== src/Accounting/Algebra.antt =====
-- accounting.py: the identities between the amounts of a trade, a mark and a position.
use itch_lab.Base.{◌≡◌, ◌∙◌, ap, ℕ, ◌*◌, arith}
use itch_lab.Base.Int.{
  ℤ, pos, pos_part, neg_part, neg, ◌+ℤ◌, ◌-ℤ◌, ◌*ℤ◌, int_laws, eq_of_parts, add_mul, sub_mul,
  mul_sub, pos_part-*ℤ, neg_part-*ℤ,
}
use itch_lab.Accounting.{mark_value, cash_value, relative_value}

-- The gain from a change of the mark is the difference of the two marked values.
pub mark_value-sub :
    (v : ℤ) (m p : ℕ) → v *ℤ (pos m -ℤ pos p) *ℤ pos 50 ≡ mark_value v m -ℤ mark_value v p
mark_value-sub v m p = rw (mul_sub v (pos m) (pos p), sub_mul (v *ℤ pos m) (v *ℤ pos p) (pos 50))

pub mark_value-add : (v w : ℤ) (m : ℕ) → mark_value (v +ℤ w) m ≡ mark_value v m +ℤ mark_value w m
mark_value-add v w m = rw (add_mul v w (pos m), add_mul (v *ℤ pos m) (w *ℤ pos m) (pos 50))

pub mark_value-zero : (m : ℕ) → mark_value (pos 0) m ≡ pos 0
mark_value-zero m = eq_of_parts _ _ (
    omega (
      arith,
      pos_part-*ℤ (pos 0 *ℤ pos m) 50,
      neg_part-*ℤ (pos 0 *ℤ pos m) 50,
      pos_part-*ℤ (pos 0) m,
      neg_part-*ℤ (pos 0) m,
    ))

module _ (a : ℤ) (x y z : ℕ) where
  pos_part-product : pos_part (a *ℤ pos x *ℤ pos y *ℤ pos z) ≡ pos_part a * x * y * z
  pos_part-product =
      rw (pos_part-*ℤ (a *ℤ pos x *ℤ pos y) z, pos_part-*ℤ (a *ℤ pos x) y, pos_part-*ℤ a x)

  neg_part-product : neg_part (a *ℤ pos x *ℤ pos y *ℤ pos z) ≡ neg_part a * x * y * z
  neg_part-product =
      rw (neg_part-*ℤ (a *ℤ pos x *ℤ pos y) z, neg_part-*ℤ (a *ℤ pos x) y, neg_part-*ℤ a x)

pub pos_part-neg : (a : ℤ) → pos_part (neg a) ≡ neg_part a
pos_part-neg a = ground arith

pub neg_part-neg : (a : ℤ) → neg_part (neg a) ≡ pos_part a
neg_part-neg a = ground arith

pos_part-cash : (side : ℤ) (p q : ℕ) → pos_part (cash_value side p q) ≡ neg_part side * p * q * 100
pos_part-cash side p q =
    pos_part-product (neg side) p q 100 ∙ ap (λ (t : ℕ). t * p * q * 100) (pos_part-neg side)

neg_part-cash : (side : ℤ) (p q : ℕ) → neg_part (cash_value side p q) ≡ pos_part side * p * q * 100
neg_part-cash side p q =
    neg_part-product (neg side) p q 100 ∙ ap (λ (t : ℕ). t * p * q * 100) (neg_part-neg side)

-- What a trade pays, with the marked value of what it delivers, is its value against the mark.
pub trade_identity :
    (side : ℤ) (p q m : ℕ)
    → cash_value side p q +ℤ mark_value (side *ℤ pos q) m ≡ relative_value side p q m
trade_identity side p q m =
    rw
      (
        mul_sub side (pos m) (pos (2 * p)),
        sub_mul (side *ℤ pos m) (side *ℤ pos (2 * p)) (pos q),
        sub_mul (side *ℤ pos m *ℤ pos q) (side *ℤ pos (2 * p) *ℤ pos q) (pos 50),
      )
      (omega (
        int_laws,
        pos_part-cash side p q,
        neg_part-cash side p q,
        pos_part-product side q m 50,
        neg_part-product side q m 50,
        pos_part-product side m q 50,
        neg_part-product side m q 50,
        pos_part-product side (2 * p) q 50,
        neg_part-product side (2 * p) q 50,
      ))
