-- ===== src/QueueModel/Prices/Sides.antt =====
-- queue_model.py: the operations of the visible book keep the prices of its sides.
use itch_lab.Base.{
  ◌≡◌, refl, subst, ℕ, ◌-◌, true, false, ◌⊎◌, inl, inr, Option, none, some, List, [], ◌∷◌, arith,
  eqb, nat_eq, Bool-cases, Option-cases, if◌then◌else◌,
}
use itch_lab.Base.Int.{ℤ}
use itch_lab.Base.Dict.{Dict, lookup, contains, insert, erase, lookup-insert, lookup-erase}
use itch_lab.StateMachine.{Slot, slot_eq, eqb_slot, eqb_slot_iff}
use itch_lab.QueueModel.Book.{
  VisibleOrder, VisibleBook, LevelKey, level_eq, eqb_level_iff, empty_book, side_key, level_key,
  level_of, is_empty, list_of, has_price, encode, push_price, add_price, shown_at, insert_visible,
  remove_visible, decrement_visible, best_price, best_visible_price,
}
use itch_lab.QueueModel.Prices.{IsPriced, FoundBest, best_price-IsBest}
use itch_lab.QueueModel.Prices.Push.{levels-IsPriced, push-IsPriced}

-- The prices of every side are in order, and no level is empty.
pub record IsSided (b : VisibleBook) : Type 0 where
  pub priced : (k : Slot) → IsPriced k b.levels (list_of k b.price_heaps) (list_of k b.heap_prices)
  pub filled : (k : LevelKey) (l : Dict ℕ ℕ) → lookup k b.levels ≡ some l → is_empty l ≡ false

pub empty_book-IsSided : IsSided empty_book
unfolding lookup
empty_book-IsSided = record {
  priced = λ k. record {
    sorted = tt;
    encoded = tt;
    known = λ p. refl;
    single = tt;
    complete = λ p c. absurd (cc);
  };
  filled = λ k l e. absurd (cc);
}

insert_filled : (r q : ℕ) (l : Dict ℕ ℕ) → is_empty (insert r q l) ≡ false
unfolding insert
insert_filled r q [] = refl
insert_filled r q ((j, p) ∷ l) = ground arith

list_of-insert :
    {A : Type 0} (j k : Slot) (x : List A) (d : Dict Slot (List A))
    → list_of k (insert j x d) ≡ (if eqb_slot j k then x else list_of k d)
list_of-insert j k x d = ground (arith, lookup-insert j k x d)

module _ (v : VisibleOrder) (b : VisibleBook) (s : IsSided b) where
  shown_filled :
      (k : LevelKey) (l : Dict ℕ ℕ) → lookup k (shown_at v b).levels ≡ some l → is_empty l ≡ false
  shown_filled k l e = ground (
    arith,
    e,
    lookup-insert (level_key v) k
        (insert v.reference v.remaining_quantity (level_of (level_key v) b.levels)) b.levels,
    insert_filled v.reference v.remaining_quantity (level_of (level_key v) b.levels),
    s.filled k l,
  )

  shown_contains :
      (k : Slot) (q : ℕ)
      → contains (k, q) (shown_at v b).levels ≡ true
      → (contains (k, q) b.levels ≡ true) ⊎ ((k ≡ side_key v) × (q ≡ v.price4))
  shown_contains k q e = ground (
    arith,
    e,
    lookup-insert (level_key v) (k, q)
        (insert v.reference v.remaining_quantity (level_of (level_key v) b.levels)) b.levels,
    eqb_level_iff (level_key v) (k, q),
  )

  -- Showing an order at a price that its side knows.
  shown_at-IsSided :
      has_price v.price4 (list_of (side_key v) b.heap_prices) ≡ true → IsSided (shown_at v b)
  shown_at-IsSided known = record {
    priced = λ k. levels-IsPriced k b.levels _ _ (s.priced k) (shown_at v b).levels λ q c.
        elim (shown_contains k q c) [ inl old ↦ inl old | inr (e, f) ↦ inr (rw (e, f) known) ];
    filled = shown_filled;
  }

  known_level :
      is_empty (level_of (level_key v) b.levels) ≡ false
      → has_price v.price4 (list_of (side_key v) b.heap_prices) ≡ true
  known_level n =
      ground (
        arith,
        (s.priced (side_key v)).complete v.price4,
        (s.priced (side_key v)).known v.price4,
        n,
      )

  module _ (n : has_price v.price4 (list_of (side_key v) b.heap_prices) ≡ false) where
    -- The book with the price pushed.
    abbrev pushed : VisibleBook
    pushed = record b {
      price_heaps =
          insert (side_key v)
            (push_price (encode v.side v.price4) (list_of (side_key v) b.price_heaps))
            b.price_heaps;
      heap_prices =
          insert (side_key v) (v.price4 ∷ list_of (side_key v) b.heap_prices) b.heap_prices;
    }

    add_price_pushed : add_price v b ≡ pushed
    unfolding add_price
    add_price_pushed = rw n

    pushed-IsSided : IsSided pushed
    pushed-IsSided = record {
      priced = λ k. elim (Bool-cases (eqb_slot (side_key v) k)) [
        | inl same ↦
            rw
              (
                list_of-insert (side_key v) k _ b.price_heaps,
                list_of-insert (side_key v) k _ b.heap_prices,
                same,
              )
              (subst
                (λ j.
                  IsPriced j b.levels
                    (push_price (encode v.side v.price4) (list_of (side_key v) b.price_heaps))
                    (v.price4 ∷ list_of (side_key v) b.heap_prices))
                ((eqb_slot_iff (side_key v) k).0 same)
                (push-IsPriced (side_key v) b.levels _ _ (s.priced (side_key v)) v.price4 n))
        | inr other ↦
            rw
              (
                list_of-insert (side_key v) k _ b.price_heaps,
                list_of-insert (side_key v) k _ b.heap_prices,
                other,
              )
              (s.priced k)
      ];
      filled = s.filled;
    }

    pushed_known : has_price v.price4 (list_of (side_key v) pushed.heap_prices) ≡ true
    pushed_known = ground (
      arith,
      list_of-insert (side_key v) (side_key v) (v.price4 ∷ list_of (side_key v) b.heap_prices)
          b.heap_prices,
      eqb_slot_iff (side_key v) (side_key v),
    )

module _ (v : VisibleOrder) (b : VisibleBook) (s : IsSided b) where
  add_price_kept :
      has_price v.price4 (list_of (side_key v) b.heap_prices) ≡ true → add_price v b ≡ b
  unfolding add_price
  add_price_kept h = rw h

  add_price-shown : IsSided (shown_at v (add_price v b))
  add_price-shown = elim (Bool-cases (has_price v.price4 (list_of (side_key v) b.heap_prices))) [
    | inl h ↦ rw (add_price_kept h) (shown_at-IsSided v b s h)
    | inr n ↦
        rw (add_price_pushed v b s n)
          (shown_at-IsSided v (pushed v b s n) (pushed-IsSided v b s n) (pushed_known v b s n))
  ]

  -- An order that enters the book.
  pub insert_visible-IsSided : IsSided (insert_visible v b)
  unfolding insert_visible
  insert_visible-IsSided = elim (Bool-cases (is_empty (level_of (level_key v) b.levels))) [
    | inl e ↦ rw e add_price-shown
    | inr n ↦ rw n (shown_at-IsSided v b s (known_level v b s n))
  ]

  -- Fewer levels, none of them empty.
  fewer-IsSided :
      (b' : VisibleBook)
      → b'.price_heaps ≡ b.price_heaps
      → b'.heap_prices ≡ b.heap_prices
      → ((k : LevelKey) → contains k b'.levels ≡ true → contains k b.levels ≡ true)
      → ((k : LevelKey) (l : Dict ℕ ℕ) → lookup k b'.levels ≡ some l → is_empty l ≡ false)
      → IsSided b'
  fewer-IsSided b' e f c g = record {
    priced = λ k.
        rw (e, f) (levels-IsPriced k b.levels _ _ (s.priced k) b'.levels λ q d. inl (c (k, q) d));
    filled = g;
  }

  remove_visible-parts :
      (b' : VisibleBook)
      → remove_visible v b ≡ some b'
      → (level : Dict ℕ ℕ) × (lookup (level_key v) b.levels ≡ some level)
        × (b' ≡ record b {
          orders = erase v.reference b.orders;
          levels =
              if is_empty (erase v.reference level)
              then erase (level_key v) b.levels
              else insert (level_key v) (erase v.reference level) b.levels;
        })
  unfolding remove_visible
  remove_visible-parts b' e = elim (Option-cases (lookup (level_key v) b.levels)) [
    | inl n ↦ absurd (ground (arith, e, n))
    | inr (l, f) ↦ (l, f, ground (arith, e, f))
  ]

  pub remove_visible-IsSided : (b' : VisibleBook) → remove_visible v b ≡ some b' → IsSided b'
  remove_visible-IsSided b' e =
      let (l, f, g) = remove_visible-parts b' e in
      fewer-IsSided b' (ground (arith, g)) (ground (arith, g))
        (λ k c. ground (
          arith,
          g,
          f,
          c,
          lookup-erase (level_key v) k b.levels,
          lookup-insert (level_key v) k (erase v.reference l) b.levels,
          eqb_level_iff (level_key v) k,
        ))
        (λ k m c. ground (
          arith,
          g,
          c,
          lookup-erase (level_key v) k b.levels,
          lookup-insert (level_key v) k (erase v.reference l) b.levels,
          s.filled k m,
        ))

  -- An order that gives up a part.
  pub decrement_visible-IsSided :
      (q : ℕ) (b' : VisibleBook) → decrement_visible v q b ≡ some b' → IsSided b'
  unfolding decrement_visible
  decrement_visible-IsSided q b' e = elim (Bool-cases (eqb (v.remaining_quantity - q) 0)) [
    | inl z ↦ remove_visible-IsSided b' (ground (arith, e, z))
    | inr z ↦ elim (Option-cases (lookup (level_key v) b.levels)) [
      | inl n ↦ absurd (ground (arith, e, z, n))
      | inr (l, f) ↦
          let w = record v { remaining_quantity = v.remaining_quantity - q } in
          let n : is_empty (level_of (level_key v) b.levels) ≡ false =
            ground (arith, f, s.filled (level_key v) l) in
          subst IsSided (ground (arith, e, z, f)) (shown_at-IsSided w b s (known_level w b s n))
    ]
  ]

module _ (id : ℕ) (side : ℤ) (b : VisibleBook) (s : IsSided b) where
  searched : Option (Option ℕ) × List ℤ × List ℕ
  searched =
      best_price (id, side) b.levels (list_of (id, side) b.price_heaps)
        (list_of (id, side) b.heap_prices)

  searched-IsBest :
      FoundBest (id, side) b.levels searched.0 × IsPriced (id, side) b.levels searched.1 searched.2
  unfolding searched
  searched-IsBest = best_price-IsBest (id, side) b.levels _ _ (s.priced (id, side))

  no_heap : lookup (id, side) b.price_heaps ≡ none → best_visible_price id side b ≡ (some none, b)
  unfolding best_visible_price
  no_heap n = ground (arith, n)

  some_heap :
      (h : List ℤ)
      → lookup (id, side) b.price_heaps ≡ some h
      → best_visible_price id side b ≡ (
        searched.0,
        record b {
          price_heaps = insert (id, side) searched.1 b.price_heaps;
          heap_prices = insert (id, side) searched.2 b.heap_prices;
        },
      )
  unfolding best_visible_price searched
  some_heap h e = ground (arith, e)

  searched_none : lookup (id, side) b.price_heaps ≡ none → searched.0 ≡ some none
  unfolding searched best_price
  searched_none n = ground (arith, n)

  searched-IsPriced :
      (k : Slot)
      → IsPriced k b.levels
          (list_of k (insert (id, side) searched.1 b.price_heaps))
          (list_of k (insert (id, side) searched.2 b.heap_prices))
  searched-IsPriced k = elim (Bool-cases (eqb_slot (id, side) k)) [
    | inl same ↦
        rw
          (
            list_of-insert (id, side) k searched.1 b.price_heaps,
            list_of-insert (id, side) k searched.2 b.heap_prices,
            same,
          )
          (subst (λ j. IsPriced j b.levels searched.1 searched.2)
            ((eqb_slot_iff (id, side) k).0 same) searched-IsBest.1)
    | inr other ↦
        rw
          (
            list_of-insert (id, side) k searched.1 b.price_heaps,
            list_of-insert (id, side) k searched.2 b.heap_prices,
            other,
          )
          (s.priced k)
  ]

  -- The search of a side finds its best price, and keeps the prices of all sides.
  pub best_visible_price-IsSided :
      FoundBest (id, side) b.levels (best_visible_price id side b).0
      × IsSided (best_visible_price id side b).1
  best_visible_price-IsSided = elim (Option-cases (lookup (id, side) b.price_heaps)) [
    | inl n ↦ rw (no_heap n) (rw (searched_none n) at searched-IsBest.0, s)
    | inr (h, e) ↦
        rw (some_heap h e)
          (searched-IsBest.0, record { priced = searched-IsPriced; filled = s.filled })
  ]

  found_best :
      (found : Option (Option ℕ))
      → FoundBest (id, side) b.levels found
      → (best : Option ℕ) × (found ≡ some best)
  found_best none h = absurd h
  found_best (some best) h = (best, refl)

  pub best_visible_price_found : (best : Option ℕ) × ((best_visible_price id side b).0 ≡ some best)
  best_visible_price_found = found_best _ best_visible_price-IsSided.0
