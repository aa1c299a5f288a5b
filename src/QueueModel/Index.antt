-- ===== src/QueueModel/Index.antt =====
-- queue_model.py: the levels of the visible book index its orders.
use itch_lab.Base.{
  ◌≡◌, refl, ℕ, true, false, Option, none, some, [], ◌∷◌, arith, nat_eq, ◌==◌, if◌then◌else◌,
  Bool-cases, Option-cases, inl, inr,
}
use itch_lab.Base.Dict.{Dict, lookup, insert, erase, lookup-insert, lookup-erase}
use itch_lab.StateMachine.{slot_eq}
use itch_lab.QueueModel.Book.{
  VisibleOrder, LevelKey, level_eq, VisibleBook, empty_book, level_key, level_of, is_empty,
  add_price, shown_at, insert_visible, remove_visible, eqb_level_iff,
}

-- What an order shows at a level: its remainder, if it stands there.
abbrev pub shown : LevelKey → Option VisibleOrder → Option ℕ
shown k none = none
shown k (some o) = if level_key o == k then some o.remaining_quantity else none

-- Each level has the remainders of the orders that stand there, and nothing else.
abbrev pub IsIndexed : VisibleBook → Type 0
IsIndexed b = (k : LevelKey) (r : ℕ) → lookup r (level_of k b.levels) ≡ shown k (lookup r b.orders)

pub empty_book-IsIndexed : IsIndexed empty_book
unfolding lookup
empty_book-IsIndexed k r = refl

-- A book with other prices in its heaps.
add_price_orders : (v : VisibleOrder) (b : VisibleBook) → (add_price v b).orders ≡ b.orders
unfolding add_price
add_price_orders v b = ground arith

add_price_levels : (v : VisibleOrder) (b : VisibleBook) → (add_price v b).levels ≡ b.levels
unfolding add_price
add_price_levels v b = ground arith

-- Showing an order that is new, or that stands at the same level.
pub shown_at-IsIndexed :
    (v : VisibleOrder) (b : VisibleBook)
    → ((k : LevelKey) → (level_key v == k) ≡ false → shown k (lookup v.reference b.orders) ≡ none)
    → IsIndexed b
    → IsIndexed (shown_at v b)
shown_at-IsIndexed v b other h k r = ground (
  arith,
  h k r,
  lookup-insert (level_key v) k
      (insert v.reference v.remaining_quantity (level_of (level_key v) b.levels)) b.levels,
  lookup-insert v.reference r v.remaining_quantity (level_of (level_key v) b.levels),
  lookup-insert v.reference r v b.orders,
  other k,
  eqb_level_iff (level_key v) k,
)

-- A new order that enters an indexed book leaves the book indexed.
pub insert_visible-IsIndexed :
    (v : VisibleOrder) (b : VisibleBook)
    → lookup v.reference b.orders ≡ none
    → IsIndexed b
    → IsIndexed (insert_visible v b)
unfolding insert_visible
insert_visible-IsIndexed v b fresh h =
    elim (Bool-cases (is_empty (level_of (level_key v) b.levels))) [
      | inl e ↦ rw e (
          shown_at-IsIndexed v (add_price v b) (λ k _. rw (add_price_orders v b, fresh))
            (λ k r. rw (add_price_orders v b, add_price_levels v b) (h k r)))
      | inr e ↦ rw e (shown_at-IsIndexed v b (λ k _. rw fresh) h)
    ]

-- The level of an order that stands in an indexed book.
pub record Standing (v : VisibleOrder) (b : VisibleBook) : Type 0 where
  pub level : Dict ℕ ℕ
  pub found : lookup (level_key v) b.levels ≡ some level
  pub remaining : lookup v.reference level ≡ some v.remaining_quantity

pub standing :
    (v : VisibleOrder) (b : VisibleBook)
    → lookup v.reference b.orders ≡ some v
    → IsIndexed b
    → Standing v b
standing v b e h =
    let q : lookup v.reference (level_of (level_key v) b.levels) ≡ some v.remaining_quantity =
      ground (arith, h (level_key v) v.reference, e, eqb_level_iff (level_key v) (level_key v)) in
    elim (Option-cases (lookup (level_key v) b.levels)) [
      | inl n ↦ absurd (unfold lookup in ground (arith, n, q))
      | inr (l, f) ↦ record { level = l; found = f; remaining = ground (arith, f, q) }
    ]

module _ (v : VisibleOrder) (b : VisibleBook) (s : Standing v b) where
  -- The book without the order.
  abbrev pub without : VisibleBook
  without = record b {
    orders = erase v.reference b.orders;
    levels =
        if is_empty (erase v.reference s.level)
        then erase (level_key v) b.levels
        else insert (level_key v) (erase v.reference s.level) b.levels;
  }

  pub remove_visible_ok : lookup v.reference b.orders ≡ some v → remove_visible v b ≡ some without
  unfolding remove_visible
  remove_visible_ok e = ground (arith, e, s.found, s.remaining)

  empty_level : (r : ℕ) (l : Dict ℕ ℕ) → is_empty l ≡ true → lookup r l ≡ none
  unfolding lookup
  empty_level r [] e = refl
  empty_level r (_ ∷ l) e = absurd (cc)

  pub without_level :
      (k : LevelKey) (r : ℕ)
      → lookup r (level_of k without.levels) ≡ (
          if level_key v == k
          then lookup r (erase v.reference s.level)
          else lookup r (level_of k b.levels))
  without_level k r = elim (Bool-cases (is_empty (erase v.reference s.level))) [
    | inl e ↦ rw e (
        unfold lookup in
        ground (
          arith,
          lookup-erase (level_key v) k b.levels,
          empty_level r (erase v.reference s.level) e,
        ))
    | inr e ↦
        rw e (ground (arith, lookup-insert (level_key v) k (erase v.reference s.level) b.levels))
  ]
