-- ===== src/Base/Int.antt =====
-- Python's signed integers over the native numbers, under the library's names.
-- Sums, products and orders go through the two parts of an integer, which `omega` reads.
use itch_lab.Base.{
  ℕ, suc, ◌+◌, ◌-◌, ◌*◌, ◌≤◌, ◌≡◌, ap, sym, ◌∙◌, ◌↔◌, Bool, false, arith, ltb, leb, eqb,
  if◌then◌else◌, Eq,
}

-- `negsuc n` is -(n + 1).
pub data ℤ : Type 0 where
  pos : ℕ → ℤ
  negsuc : ℕ → ℤ

abbrev pub pos_part : ℤ → ℕ
pos_part (pos n) = n
pos_part (negsuc n) = 0

abbrev pub neg_part : ℤ → ℕ
neg_part (pos n) = 0
neg_part (negsuc n) = suc n

-- a - b, as an integer.
abbrev pub sub_ℕ : ℕ → ℕ → ℤ
sub_ℕ a b = if leb b a then pos (a - b) else negsuc (b - a - 1)

infixl 65 ◌+ℤ◌ ◌-ℤ◌
infixl 70 ◌*ℤ◌
infix 50 ◌≤ℤ◌
unfoldable pub ◌+ℤ◌ : ℤ → ℤ → ℤ
a +ℤ b = sub_ℕ (pos_part a + pos_part b) (neg_part a + neg_part b)

unfoldable pub ◌-ℤ◌ : ℤ → ℤ → ℤ
a -ℤ b = sub_ℕ (pos_part a + neg_part b) (neg_part a + pos_part b)

unfoldable pub ◌*ℤ◌ : ℤ → ℤ → ℤ
a *ℤ b =
    sub_ℕ (pos_part a * pos_part b + neg_part a * neg_part b)
      (pos_part a * neg_part b + neg_part a * pos_part b)

-- -a
abbrev pub neg : ℤ → ℤ
neg a = sub_ℕ (neg_part a) (pos_part a)

-- |a|, a number.
abbrev pub abs : ℤ → ℕ
abs a = pos_part a + neg_part a

abbrev pub ◌≤ℤ◌ : ℤ → ℤ → Type 0
a ≤ℤ b = pos_part a + neg_part b ≤ pos_part b + neg_part a

abbrev pub leb_ℤ : ℤ → ℤ → Bool
leb_ℤ a b = leb (pos_part a + neg_part b) (pos_part b + neg_part a)

abbrev pub ltb_ℤ : ℤ → ℤ → Bool
ltb_ℤ a b = ltb (pos_part a + neg_part b) (pos_part b + neg_part a)

abbrev pub eqb_ℤ : ℤ → ℤ → Bool
eqb_ℤ (pos a) (pos b) = eqb a b
eqb_ℤ (negsuc a) (negsuc b) = eqb a b
eqb_ℤ _ _ = false

pub eqb_ℤ_iff : (a b : ℤ) → (eqb_ℤ a b ≡ Bool.true) ↔ (a ≡ b)
eqb_ℤ_iff a b = ground arith

instance abbrev pub int_eq : Eq ℤ
int_eq = record { beq = eqb_ℤ; beq_iff = eqb_ℤ_iff }

-- One lemma for each operation lets `omega` work with the operations shut, at any depth.
pub +ℤ_parts :
    (a b : ℤ)
    → pos_part (a +ℤ b) + neg_part a + neg_part b ≡ neg_part (a +ℤ b) + pos_part a + pos_part b
unfolding ◌+ℤ◌
+ℤ_parts a b = ground arith

pub -ℤ_parts :
    (a b : ℤ)
    → pos_part (a -ℤ b) + neg_part a + pos_part b ≡ neg_part (a -ℤ b) + pos_part a + neg_part b
unfolding ◌-ℤ◌
-ℤ_parts a b = ground arith

pub *ℤ_parts :
    (a b : ℤ)
    → pos_part (a *ℤ b) + (pos_part a * neg_part b + neg_part a * pos_part b)
      ≡ neg_part (a *ℤ b) + (pos_part a * pos_part b + neg_part a * neg_part b)
unfolding ◌*ℤ◌
*ℤ_parts a b = ground arith

pub eq_of_parts : (a b : ℤ) → pos_part a + neg_part b ≡ pos_part b + neg_part a → a ≡ b
eq_of_parts a b h = ground arith

pub ruleset int_laws = (arith, +ℤ_parts, -ℤ_parts, eq_of_parts)

pub mul_comm : (a b : ℤ) → a *ℤ b ≡ b *ℤ a
mul_comm a b = eq_of_parts _ _ (omega (arith, *ℤ_parts a b, *ℤ_parts b a))

pub add_mul : (a b c : ℤ) → (a +ℤ b) *ℤ c ≡ a *ℤ c +ℤ b *ℤ c
add_mul a b c = eq_of_parts _ _ (
    omega (
      arith,
      +ℤ_parts (a *ℤ c) (b *ℤ c),
      *ℤ_parts (a +ℤ b) c,
      *ℤ_parts a c,
      *ℤ_parts b c,
      ap (λ (t : ℕ). t * pos_part c) (+ℤ_parts a b),
      ap (λ (t : ℕ). t * neg_part c) (+ℤ_parts a b),
    ))

pub sub_mul : (a b c : ℤ) → (a -ℤ b) *ℤ c ≡ a *ℤ c -ℤ b *ℤ c
sub_mul a b c = eq_of_parts _ _ (
    omega (
      arith,
      -ℤ_parts (a *ℤ c) (b *ℤ c),
      *ℤ_parts (a -ℤ b) c,
      *ℤ_parts a c,
      *ℤ_parts b c,
      ap (λ (t : ℕ). t * pos_part c) (-ℤ_parts a b),
      ap (λ (t : ℕ). t * neg_part c) (-ℤ_parts a b),
    ))

pub mul_sub : (a b c : ℤ) → a *ℤ (b -ℤ c) ≡ a *ℤ b -ℤ a *ℤ c
mul_sub a b c = rw (mul_comm a (b -ℤ c), mul_comm a b, mul_comm a c) (sub_mul b c a)

-- A product by a number, part by part.
pub pos_part-*ℤ : (a : ℤ) (n : ℕ) → pos_part (a *ℤ pos n) ≡ pos_part a * n
unfolding ◌*ℤ◌
pos_part-*ℤ a n = ground arith

pub neg_part-*ℤ : (a : ℤ) (n : ℕ) → neg_part (a *ℤ pos n) ≡ neg_part a * n
unfolding ◌*ℤ◌
neg_part-*ℤ (pos a) n = ground arith
neg_part-*ℤ (negsuc a) n = ground arith

pub +ℤ_assoc : (a b c : ℤ) → a +ℤ b +ℤ c ≡ a +ℤ (b +ℤ c)
+ℤ_assoc a b c = omega int_laws

pub add_zero : (a : ℤ) → a +ℤ pos 0 ≡ a
add_zero a = omega int_laws

pub zero_+ℤ : (a : ℤ) → pos 0 +ℤ a ≡ a
zero_+ℤ a = omega int_laws

-- Sums that differ in the order of two terms, or in equal parts.
pub add_swap : (a b c : ℤ) → a +ℤ b +ℤ c ≡ c +ℤ b +ℤ a
add_swap a b c = omega int_laws

pub add_under : (a b c d e : ℤ) → b +ℤ c ≡ d +ℤ e → a +ℤ b +ℤ c ≡ a +ℤ d +ℤ e
add_under a b c d e h = +ℤ_assoc a b c ∙ ap (λ x. a +ℤ x) h ∙ sym (+ℤ_assoc a d e)
