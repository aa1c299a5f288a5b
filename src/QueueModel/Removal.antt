-- ===== src/QueueModel/Removal.antt =====
-- queue_model.py: taking an order, or a part of it, out of an indexed book.
use itch_lab.Base.{
  ◌≡◌, ◌∙◌, ℕ, ◌-◌, ◌≤◌, true, false, none, some, arith, eqb, nat_eq, if◌then◌else◌, Bool-cases,
  inl, inr,
}
use itch_lab.Base.Dict.{lookup, lookup-insert, lookup-erase}
use itch_lab.StateMachine.{slot_eq}
use itch_lab.QueueModel.Book.{
  VisibleOrder, level_eq, VisibleBook, level_key, shown_at, remove_visible, decrement_visible,
  eqb_level_iff,
}
use itch_lab.QueueModel.Index.{
  IsIndexed, shown_at-IsIndexed, Standing, standing, without, remove_visible_ok, without_level,
}

module _ (v : VisibleOrder) (b : VisibleBook) (e : lookup v.reference b.orders ≡ some v)
    (h : IsIndexed b) where
  without-IsIndexed : (s : Standing v b) → IsIndexed (without v b s)
  without-IsIndexed s k r =
      without_level v b s k r
      ∙ ground (
        arith,
        h k r,
        s.found,
        e,
        lookup-erase v.reference r s.level,
        lookup-erase v.reference r b.orders,
        eqb_level_iff (level_key v) k,
      )

  -- The removal of an order that stands in an indexed book raises no KeyError, takes the order out,
  -- and leaves the book indexed.
  pub remove_visible-IsIndexed :
      (b' : VisibleBook) × (remove_visible v b ≡ some b')
      × (lookup v.reference b'.orders ≡ none)
      × IsIndexed b'
  remove_visible-IsIndexed =
      let s = standing v b e h in
      (
        without v b s,
        remove_visible_ok v b s e,
        ground (arith, lookup-erase v.reference v.reference b.orders),
        without-IsIndexed s,
      )

  -- The order with a quantity taken off.
  abbrev pub reduced : ℕ → VisibleOrder
  reduced q = record v { remaining_quantity = v.remaining_quantity - q }

  reduced-IsIndexed : (q : ℕ) → IsIndexed (shown_at (reduced q) b)
  reduced-IsIndexed q = shown_at-IsIndexed (reduced q) b (λ k n. ground (arith, e, n)) h

  reduce_ok :
      (q : ℕ)
      → q ≤ v.remaining_quantity
      → Standing v b
      → eqb (v.remaining_quantity - q) 0 ≡ false
      → decrement_visible v q b ≡ some (shown_at (reduced q) b)
  unfolding decrement_visible
  reduce_ok q le s n = ground (arith, s.found, n)

  whole :
      (q : ℕ)
      → q ≤ v.remaining_quantity
      → eqb (v.remaining_quantity - q) 0 ≡ true
      → decrement_visible v q b ≡ remove_visible v b
  unfolding decrement_visible
  whole q le z = ground (arith, le, z)

  -- A quantity up to the remainder of an order that stands in an indexed book comes off without a
  -- KeyError: the order keeps the rest, or leaves the book if there is none, and the book stays
  -- indexed.
  pub decrement_visible-IsIndexed :
      (q : ℕ)
      → q ≤ v.remaining_quantity
      → (b' : VisibleBook) × (decrement_visible v q b ≡ some b')
        × (lookup v.reference b'.orders
            ≡ (if eqb (v.remaining_quantity - q) 0 then none else some (reduced q)))
        × IsIndexed b'
  decrement_visible-IsIndexed q le = elim (Bool-cases (eqb (v.remaining_quantity - q) 0)) [
    | inl z ↦ let (b', a, n, i) = remove_visible-IsIndexed in (b', whole q le z ∙ a, rw z n, i)
    | inr z ↦ (
      shown_at (reduced q) b,
      reduce_ok q le (standing v b e h) z,
      ground (arith, z, lookup-insert v.reference v.reference (reduced q) b.orders),
      reduced-IsIndexed q,
    )
  ]
