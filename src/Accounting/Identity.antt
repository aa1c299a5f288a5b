-- ===== src/Accounting/Identity.antt =====
-- accounting.py: the marked value of a set of positions, and how marks and trades change it.
use itch_lab.Base.{
  eqb, eqb_iff, if◌then◌else◌, ◌≡◌, refl, ◌∙◌, ap, ◌⊎◌, inl, inr, ℕ, true, Option, none, some, [],
  ◌∷◌, arith, nat_eq, Option-cases,
}
use itch_lab.Base.Int.{ℤ, pos, ◌+ℤ◌, int_laws, add_swap, add_under, add_zero}
use itch_lab.Base.Dict.{IsDict, insert-IsDict, Dict, lookup, insert, contains, lookup-insert}
use itch_lab.Accounting.{mark_value}
use itch_lab.Accounting.Algebra.{mark_value-zero}
use itch_lab.Accounting.Marks.{position, set_default}

-- The value of one position: nothing where the symbol has no mark.
abbrev pub value_of : ℤ → Option ℕ → ℤ
value_of v none = pos 0
value_of v (some m) = mark_value v m

-- The value of all positions.
unfoldable pub marked : Dict ℕ ℤ → Dict ℕ ℕ → ℤ
marked [] ms = pos 0
marked ((k, v) ∷ d) ms = value_of v (lookup k ms) +ℤ marked d ms

-- Each position that is not zero has a mark.
abbrev pub Covered : Dict ℕ ℤ → Dict ℕ ℕ → Type 0
Covered [] ms = Unit
Covered ((k, v) ∷ d) ms = ((v ≡ pos 0) ⊎ (contains k ms ≡ true)) × Covered d ms

pub set_default-IsDict : (k : ℕ) (v : ℤ) (d : Dict ℕ ℤ) → IsDict d → IsDict (set_default k v d)
set_default-IsDict k v d h = elim (Option-cases (lookup k d)) [
  | inl e ↦ ground (arith, insert-IsDict k v d h)
  | inr (w, e) ↦ ground arith
]

pub value_of-zero : (m : Option ℕ) → value_of (pos 0) m ≡ pos 0
value_of-zero none = refl
value_of-zero (some m) = mark_value-zero m

zeros : (a : ℤ) → pos 0 +ℤ pos 0 +ℤ a ≡ pos 0 +ℤ a
zeros a = omega int_laws

-- A new position in place of the old one changes the value by the difference of the two.
pub marked-insert :
    (k : ℕ) (v : ℤ) (d : Dict ℕ ℤ) (ms : Dict ℕ ℕ)
    → marked (insert k v d) ms +ℤ value_of (position k d) (lookup k ms)
      ≡ marked d ms +ℤ value_of v (lookup k ms)
unfolding marked insert lookup
marked-insert k v [] ms =
    ap (λ x. value_of v (lookup k ms) +ℤ pos 0 +ℤ x) (value_of-zero (lookup k ms))
    ∙ add_swap (value_of v (lookup k ms)) (pos 0) (pos 0)
    ∙ zeros (value_of v (lookup k ms))
marked-insert k v ((j, w) ∷ d) ms = ground (
  arith,
  marked-insert k v d ms,
  add_under (value_of w (lookup j ms)) (marked (insert k v d) ms)
      (value_of (position k d) (lookup k ms)) (marked d ms) (value_of v (lookup k ms)),
  add_swap (value_of v (lookup k ms)) (marked d ms) (value_of w (lookup k ms)),
)

-- A mark of a symbol without a position changes nothing.
pub marked-mark_absent :
    (k m : ℕ) (d : Dict ℕ ℤ) (ms : Dict ℕ ℕ)
    → lookup k d ≡ none
    → marked d (insert k m ms) ≡ marked d ms
unfolding marked lookup
marked-mark_absent k m [] ms e = refl
marked-mark_absent k m ((j, w) ∷ d) ms e =
    ground (arith, marked-mark_absent k m d ms, lookup-insert k j m ms)

-- A new mark changes the value by that of the symbol's position.
pub marked-mark :
    (k m : ℕ) (d : Dict ℕ ℤ) (ms : Dict ℕ ℕ)
    → IsDict d
    → marked d (insert k m ms) +ℤ value_of (position k d) (lookup k ms)
      ≡ marked d ms +ℤ mark_value (position k d) m
unfolding marked lookup
marked-mark k m [] ms h = ground (arith, value_of-zero (lookup k ms), mark_value-zero m)
marked-mark k m ((j, w) ∷ d) ms h = ground (
  arith,
  marked-mark k m d ms h.1,
  marked-mark_absent k m d ms,
  lookup-insert k j m ms,
  add_under (value_of w (lookup j ms)) (marked d (insert k m ms))
      (value_of (position k d) (lookup k ms)) (marked d ms) (mark_value (position k d) m),
  add_swap (mark_value w m) (marked d ms) (value_of w (lookup k ms)),
)

-- A position of zero adds nothing.
pub marked-set_default :
    (k : ℕ) (d : Dict ℕ ℤ) (ms : Dict ℕ ℕ)
    → marked (set_default k (position k d) d) ms ≡ marked d ms
marked-set_default k d ms = elim (Option-cases (lookup k d)) [
  | inl e ↦ ground (
    arith,
    marked-insert k (pos 0) d ms,
    value_of-zero (lookup k ms),
    add_zero (marked (insert k (pos 0) d) ms),
    add_zero (marked d ms),
  )
  | inr (w, e) ↦ ground arith
]

pub position-default :
    (k j : ℕ) (d : Dict ℕ ℤ) → position j (set_default k (position k d) d) ≡ position j d
position-default k j d = ground (arith, lookup-insert k j (pos 0) d, eqb_iff k j)

pub position-insert :
    (k j : ℕ) (v : ℤ) (d : Dict ℕ ℤ)
    → position j (insert k v d) ≡ (if eqb k j then v else position j d)
position-insert k j v d = ground (arith, lookup-insert k j v d)

pub Covered-insert :
    (k : ℕ) (v : ℤ) (d : Dict ℕ ℤ) (ms : Dict ℕ ℕ)
    → (v ≡ pos 0) ⊎ (contains k ms ≡ true)
    → Covered d ms
    → Covered (insert k v d) ms
unfolding insert
Covered-insert k v [] ms c h = (c, tt)
Covered-insert k v ((j, w) ∷ d) ms c h = ground (arith, Covered-insert k v d ms c h.1)

contains-insert :
    (k j m : ℕ) (ms : Dict ℕ ℕ) → contains j ms ≡ true → contains j (insert k m ms) ≡ true
contains-insert k j m ms h = ground (arith, lookup-insert k j m ms)

pub contains-insert_self : (k m : ℕ) (ms : Dict ℕ ℕ) → contains k (insert k m ms) ≡ true
contains-insert_self k m ms = ground (arith, lookup-insert k k m ms)

pub Covered-mark :
    (k m : ℕ) (d : Dict ℕ ℤ) (ms : Dict ℕ ℕ) → Covered d ms → Covered d (insert k m ms)
Covered-mark k m [] ms h = tt
Covered-mark k m ((j, w) ∷ d) ms (inl z, h) = (inl z, Covered-mark k m d ms h)
Covered-mark k m ((j, w) ∷ d) ms (inr c, h) =
    (inr (contains-insert k j m ms c), Covered-mark k m d ms h)

pub Covered-set_default :
    (k : ℕ) (d : Dict ℕ ℤ) (ms : Dict ℕ ℕ)
    → Covered d ms
    → Covered (set_default k (position k d) d) ms
Covered-set_default k d ms h = elim (Option-cases (lookup k d)) [
  | inl e ↦ ground (arith, Covered-insert k (pos 0) d ms (inl refl) h)
  | inr (w, e) ↦ ground arith
]

-- A position without a mark is zero.
pub Covered-position :
    (k : ℕ) (d : Dict ℕ ℤ) (ms : Dict ℕ ℕ)
    → Covered d ms
    → lookup k ms ≡ none
    → position k d ≡ pos 0
unfolding lookup
Covered-position k [] ms h e = refl
Covered-position k ((j, w) ∷ d) ms h e = ground (arith, Covered-position k d ms h.1 e)
