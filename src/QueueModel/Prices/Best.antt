-- ===== src/QueueModel/Prices/Best.antt =====
-- queue_model.py: the best visible price is that of the orders in the book.
use itch_lab.Base.{
  ◌≡◌, ◌≢◌, refl, ◌⊎◌, ◌↔◌, leb, ap, ℕ, Bool, true, false, Option, none, some, [], ◌∷◌, arith,
  nat_eq, Option-cases, inl, inr, if◌then◌else◌,
}
use itch_lab.Base.Int.{ℤ, pos, negsuc, neg, eqb_ℤ, leb_ℤ}
use itch_lab.Base.Dict.{Dict, lookup, contains}
use itch_lab.StateMachine.{Slot, slot_eq}
use itch_lab.QueueModel.Book.{
  VisibleOrder, VisibleBook, LevelKey, level_eq, eqb_level_iff, side_key, level_key, is_empty,
  encode, best_visible_price,
}
use itch_lab.QueueModel.Index.{IsIndexed}
use itch_lab.QueueModel.Activation.{crosses, book_crosses, best_visible_price_keeps}
use itch_lab.QueueModel.Prices.{IsBest, FoundBest}
use itch_lab.QueueModel.Prices.Sides.{IsSided, best_visible_price-IsSided}

-- A price that is no worse than another on a side: sales go from the lowest price, and purchases from
-- the highest.
abbrev pub not_after : ℤ → ℕ → ℕ → Bool
not_after side p q = if eqb_ℤ side (negsuc 0) then leb p q else leb q p

-- What the orders of a book offer on a side, whatever the levels and heaps: no price if no order
-- stands there, and otherwise the price of an order, before which the price of no other comes.
abbrev pub Offers : Slot → Dict ℕ VisibleOrder → Option ℕ → Type 0
Offers k orders none = (r : ℕ) (v : VisibleOrder) → lookup r orders ≡ some v → side_key v ≢ k
Offers k orders (some p) =
    ((r : ℕ) × ((v : VisibleOrder) × (lookup r orders ≡ some v)
        × (side_key v ≡ k)
        × (v.price4 ≡ p)))
    × ((r : ℕ) (v : VisibleOrder)
        → lookup r orders ≡ some v
        → side_key v ≡ k
        → not_after k.1 p v.price4 ≡ true)

encoded_order :
    (side : ℤ) (p q : ℕ) → leb_ℤ (encode side p) (encode side q) ≡ true → not_after side p q ≡ true
encoded_order side p q h = ground (arith, h)

module _ (b : VisibleBook) (i : IsIndexed b) (s : IsSided b) where
  -- An order's level is there.
  order_level :
      (r : ℕ) (v : VisibleOrder)
      → lookup r b.orders ≡ some v
      → contains (level_key v) b.levels ≡ true
  order_level r v e = elim (Option-cases (lookup (level_key v) b.levels)) [
    | inl n ↦ absurd (
        unfold lookup in
        ground (arith, i (level_key v) r, e, n, eqb_level_iff (level_key v) (level_key v)))
    | inr (l, f) ↦ ground (arith, f)
  ]

  first_of : (l : Dict ℕ ℕ) → is_empty l ≡ false → (r : ℕ) × ((q : ℕ) × (lookup r l ≡ some q))
  unfolding lookup
  first_of [] e = absurd (cc)
  first_of ((r, q) ∷ l) e = (r, (q, ground arith))

  -- A level has an order.
  level_order :
      (k : LevelKey)
      → contains k b.levels ≡ true
      → (r : ℕ) × ((v : VisibleOrder) × (lookup r b.orders ≡ some v) × (level_key v ≡ k))
  level_order k c = elim (Option-cases (lookup k b.levels)) [
    | inl n ↦ absurd (ground (arith, c, n))
    | inr (l, f) ↦
        let (r, (q, h)) = first_of l (s.filled k l f) in
        elim (Option-cases (lookup r b.orders)) [
          | inl n ↦ absurd (ground (arith, i k r, f, h, n))
          | inr (v, g) ↦ (r, (v, g, ground (arith, i k r, f, h, g, eqb_level_iff (level_key v) k)))
        ]
  ]

  Offers-of : (k : Slot) (best : Option ℕ) → IsBest k b.levels best → Offers k b.orders best
  Offers-of k none h = λ r v e same. ground (arith, h v.price4, order_level r v e, same)
  Offers-of k (some p) h =
      let (r, (v, e, f)) = level_order (k, p) h.0 in
      (
        (r, (v, e, ap (λ x. x.0) f, ap (λ x. x.1) f)),
        λ r' v' e' same.
            encoded_order k.1 p v'.price4 (h.1 v'.price4 (rw (← same) (order_level r' v' e'))),
      )

  IsBest-found :
      (k : Slot) (found : Option (Option ℕ))
      → FoundBest k b.levels found
      → (best : Option ℕ) × (found ≡ some best) × IsBest k b.levels best
  IsBest-found k none h = absurd h
  IsBest-found k (some best) h = (best, refl, h)

  -- The lazy heaps refine the orders of the book: on a book whose levels index its orders and whose
  -- heaps know the prices of its levels, the search for the best visible price of a side raises no
  -- KeyError and returns the best that its orders offer, the orders and the levels stay as they are,
  -- and the heaps know the prices again.
  pub best_visible_price-Offers :
      (id : ℕ) (side : ℤ)
      → (best : Option ℕ) × ((best_visible_price id side b).0 ≡ some best)
        × Offers (id, side) b.orders best
        × ((best_visible_price id side b).1.orders ≡ b.orders)
        × ((best_visible_price id side b).1.levels ≡ b.levels)
        × IsSided (best_visible_price id side b).1
  best_visible_price-Offers id side =
      let (h, t) = best_visible_price-IsSided id side b s in
      let (o, l) = best_visible_price_keeps id side b in
      let (best, e, f) = IsBest-found (id, side) _ h in
      (best, e, Offers-of (id, side) best f, o, l, t)

-- A price on the other side that an order of the side and price would trade against.
abbrev pub Reaches : ℤ → ℕ → ℕ → Type 0
Reaches side price4 p = (if eqb_ℤ side (pos 1) then leb p price4 else leb price4 p) ≡ true

-- An order that stands on the other side at such a price.
pub record Crosser (id : ℕ) (side : ℤ) (price4 : ℕ) (orders : Dict ℕ VisibleOrder) : Type 0 where
  pub reference : ℕ
  pub order : VisibleOrder
  pub found : lookup reference orders ≡ some order
  pub other_side : side_key order ≡ (id, neg side)
  pub reaches : Reaches side price4 order.price4

crosses_none :
    (id : ℕ) (side : ℤ) (price4 : ℕ) (orders : Dict ℕ VisibleOrder)
    → Offers (id, neg side) orders none
    → Crosser id side price4 orders
    → ⊥
crosses_none id side price4 orders h c = h c.reference c.order c.found c.other_side

Reaches-best :
    (side : ℤ) (price4 p q : ℕ)
    → (side ≡ pos 1) ⊎ (side ≡ negsuc 0)
    → not_after (neg side) p q ≡ true
    → Reaches side price4 q
    → Reaches side price4 p
Reaches-best side price4 p q (inl b) l r = ground (arith, b, l, r)
Reaches-best side price4 p q (inr b) l r = ground (arith, b, l, r)

crosses_iff :
    (id : ℕ) (side : ℤ) (price4 : ℕ) (orders : Dict ℕ VisibleOrder) (best : Option ℕ)
    → (side ≡ pos 1) ⊎ (side ≡ negsuc 0)
    → Offers (id, neg side) orders best
    → (crosses side price4 best ≡ true) ↔ Crosser id side price4 orders
crosses_iff id side price4 orders none d h =
    (λ c. absurd (cc), λ c. absurd (crosses_none id side price4 orders h c))
crosses_iff id side price4 orders (some p) d h =
    let (r, (v, e, k, f)) = h.0 in
    (
      λ c. record { reference = r; order = v; found = e; other_side = k; reaches = rw f c },
      λ c.
          Reaches-best side price4 p c.order.price4 d (h.1 c.reference c.order c.found c.other_side)
            c.reaches,
    )

-- The comparison with the best price on the other side of a book in order raises no KeyError, and
-- decides whether an order stands there that a buy or a sell at the price would trade against.
pub crosses-Crosser :
    (b : VisibleBook) (id : ℕ) (side : ℤ) (price4 : ℕ)
    → IsIndexed b
    → IsSided b
    → (side ≡ pos 1) ⊎ (side ≡ negsuc 0)
    → (crossed : Bool) × ((book_crosses id side price4 b).0 ≡ some crossed)
      × ((crossed ≡ true) ↔ Crosser id side price4 b.orders)
unfolding book_crosses
crosses-Crosser b id side price4 i s d =
    let (best, e, h, _, _, _) = best_visible_price-Offers b i s id (neg side) in
    (crosses side price4 best, ground (arith, e), crosses_iff id side price4 b.orders best d h)
