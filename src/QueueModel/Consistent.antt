-- ===== src/QueueModel/Consistent.antt =====
-- queue_model.py: a visible book whose orders stand under their own references, whose levels index
-- them, and whose heaps know the prices of the levels.
use itch_lab.Base.{◌≡◌, ℕ, ◌-◌, ◌≤◌, Bool, none, some, arith, nat_eq}
use itch_lab.Base.Int.{ℤ, neg}
use itch_lab.Base.Dict.{lookup, insert, erase, lookup-insert, lookup-erase}
use itch_lab.QueueModel.Book.{
  VisibleOrder, VisibleBook, empty_book, insert_visible, remove_visible, decrement_visible,
  add_price, best_visible_price,
}
use itch_lab.QueueModel.Index.{IsIndexed, empty_book-IsIndexed, insert_visible-IsIndexed}
use itch_lab.QueueModel.Prices.Sides.{
  IsSided, empty_book-IsSided, insert_visible-IsSided, remove_visible-IsSided,
  decrement_visible-IsSided, best_visible_price-IsSided, best_visible_price_found,
}
use itch_lab.QueueModel.Removal.{remove_visible-IsIndexed, decrement_visible-IsIndexed}
use itch_lab.QueueModel.Activation.{crosses, book_crosses, best_visible_price_keeps}

pub record IsConsistent (b : VisibleBook) : Type 0 where
  pub indexed : IsIndexed b
  pub keyed : (r : ℕ) (v : VisibleOrder) → lookup r b.orders ≡ some v → v.reference ≡ r
  pub sided : IsSided b

pub empty_book-IsConsistent : IsConsistent empty_book
unfolding lookup
empty_book-IsConsistent = record {
  indexed = empty_book-IsIndexed;
  keyed = λ r v e. absurd (ground (arith, e));
  sided = empty_book-IsSided;
}

insert_visible_orders :
    (v : VisibleOrder) (b : VisibleBook)
    → (insert_visible v b).orders ≡ insert v.reference v b.orders
unfolding insert_visible add_price
insert_visible_orders v b = ground arith

module _ (v : VisibleOrder) (b : VisibleBook) (c : IsConsistent b) where
  pub insert_visible-IsConsistent :
      lookup v.reference b.orders ≡ none → IsConsistent (insert_visible v b)
  insert_visible-IsConsistent fresh = record {
    indexed = insert_visible-IsIndexed v b fresh c.indexed;
    keyed = λ r w e.
        ground (
          arith,
          e,
          insert_visible_orders v b,
          lookup-insert v.reference r v b.orders,
          c.keyed r w,
        );
    sided = insert_visible-IsSided v b c.sided;
  }

  remove_visible_orders :
      (b' : VisibleBook) → remove_visible v b ≡ some b' → b'.orders ≡ erase v.reference b.orders
  unfolding remove_visible
  remove_visible_orders b' e = ground (arith, e)

  pub remove_visible-IsConsistent :
      lookup v.reference b.orders ≡ some v
      → (b' : VisibleBook) × (remove_visible v b ≡ some b')
        × IsConsistent b'
        × (b'.orders ≡ erase v.reference b.orders)
  remove_visible-IsConsistent e =
      let (b', r, n, i) = remove_visible-IsIndexed v b e c.indexed in
      (
        b',
        r,
        record {
          indexed = i;
          keyed = λ k w h. ground (
            arith,
            h,
            remove_visible_orders b' r,
            lookup-erase v.reference k b.orders,
            c.keyed k w,
          );
          sided = remove_visible-IsSided v b c.sided b' r;
        },
        remove_visible_orders b' r,
      )

  decrement_visible_keyed :
      (q : ℕ) (b' : VisibleBook)
      → decrement_visible v q b ≡ some b'
      → (k : ℕ) (w : VisibleOrder) → lookup k b'.orders ≡ some w
      → w.reference ≡ k
  unfolding decrement_visible
  decrement_visible_keyed q b' e k w h = ground (
    arith,
    e,
    h,
    remove_visible_orders b',
    lookup-erase v.reference k b.orders,
    lookup-insert v.reference k (record v { remaining_quantity = v.remaining_quantity - q })
        b.orders,
    c.keyed k w,
  )

  pub decrement_visible-IsConsistent :
      (q : ℕ)
      → q ≤ v.remaining_quantity
      → lookup v.reference b.orders ≡ some v
      → (b' : VisibleBook) × (decrement_visible v q b ≡ some b') × IsConsistent b'
  decrement_visible-IsConsistent q le e =
      let (b', r, n, i) = decrement_visible-IsIndexed v b e c.indexed q le in
      (
        b',
        r,
        record {
          indexed = i;
          keyed = decrement_visible_keyed q b' r;
          sided = decrement_visible-IsSided v b c.sided q b' r;
        },
      )

-- The search for the best price changes the heaps only.
best_visible_price-IsConsistent :
    (id : ℕ) (side : ℤ) (b : VisibleBook)
    → IsConsistent b
    → IsConsistent (best_visible_price id side b).1
best_visible_price-IsConsistent id side b c =
    let (o, l) = best_visible_price_keeps id side b in
    record {
      indexed = λ k r. rw (o, l) (c.indexed k r);
      keyed = λ r v e. c.keyed r v (rw (← o) e);
      sided = (best_visible_price-IsSided id side b c.sided).1;
    }

-- On a book in order the comparison with the other side raises no KeyError, and keeps the order.
pub book_crosses-IsConsistent :
    (id : ℕ) (side : ℤ) (price4 : ℕ) (b : VisibleBook)
    → IsConsistent b
    → IsConsistent (book_crosses id side price4 b).1
      × (crossed : Bool) × ((book_crosses id side price4 b).0 ≡ some crossed)
unfolding book_crosses
book_crosses-IsConsistent id side price4 b c =
    let (best, e) = best_visible_price_found id (neg side) b c.sided in
    (best_visible_price-IsConsistent id (neg side) b c, crosses side price4 best, ground (arith, e))
