-- ===== src/QueueModel/Invariant/Handlers.antt =====
-- queue_model.py: every handler of a visible event keeps the invariant, and no lookup in the
-- visible book fails.
use itch_lab.Base.{
  ◌≡◌, refl, ℕ, ◌≤◌, true, false, ◌||◌, not, Option, none, some, arith, eqb, nat_eq, Option-cases,
  inl, inr,
}
use itch_lab.Base.Dict.{lookup, contains, erase, lookup-erase}
use itch_lab.MarketEvents.{MarketEvent, same_number}
use itch_lab.QueueModel.Book.{VisibleOrder, VisibleBook}
use itch_lab.QueueModel.Tracker.{TrackedQueue}
use itch_lab.QueueModel.Consistent.{
  insert_visible-IsConsistent, remove_visible-IsConsistent, decrement_visible-IsConsistent,
}
use itch_lab.QueueModel.Method.{
  Method, ◌>>=◌, modify, returns, raises, Ends-bind, Ends-gets, lift, Ends-pure, Ends-if,
  Ends-modify, Ends-map, Ends-lift, Ends-or_key_error,
}
use itch_lab.QueueModel.Model.{
  QueueAnomalyReason, VisibleQueueModel, put_book, cast, same_side, skip, validated_existing_order,
}
use itch_lab.QueueModel.Handlers.{
  apply_add, apply_cancel, apply_delete, apply_replace, apply_broken_trade, cancel_order,
  delete_order, replace_order, mismatch, decrement, remove, give_up, give_up_some, drop_some,
  holder, order_of, show, with_order, broken_trade_diagnostic,
}
use itch_lab.QueueModel.Invariant.{
  skipped-Frame, IsWithin, Keeps, Frame, Found, skip-Keeps, validated_existing_order-Keeps,
  put_book-IsWithin, put_queues-IsWithin, noted-IsWithin,
}

-- An order that matches the event has the quantity that it takes.
pub mismatch-covers :
    (e : MarketEvent) (v : VisibleOrder)
    → mismatch e v ≡ false
    → cast e.quantity ≤ v.remaining_quantity
mismatch-covers e v m = ground (arith, m)

module _ (s : VisibleQueueModel) (w : IsWithin s) where
  pub skipped-Keeps :
      {A : Type 0} (e : MarketEvent) (r : QueueAnomalyReason) (id : Option ℕ) (a : A)
      → Keeps (Frame s) (skip e r id a s)
  skipped-Keeps e r id a =
      Ends-map (skip-Keeps s w e r id a) λ _ s' h. (h.0, skipped-Frame s w e r id s' h.1.1)

  show-IsWithin :
      (v : VisibleOrder) → lookup v.reference s.visible.book.orders ≡ none → IsWithin (show v s)
  show-IsWithin v n =
      put_book-IsWithin s w _ (insert_visible-IsConsistent v s.visible.book w.sound.book n)

  pub apply_add-Keeps : (e : MarketEvent) → Keeps (Frame s) (apply_add e s)
  unfolding apply_add
  apply_add-Keeps e = Ends-gets _ _ s (
      Ends-if (contains (cast e.primary_reference) s.visible.book.orders) _ _ s
        (λ _. skipped-Keeps e _ none false)
        λ n. Ends-modify _ _ s (
          Ends-pure true _ (
            show-IsWithin (order_of (cast e.primary_reference) e) (ground (arith, n)),
            (refl, refl),
          )))

  -- Taking a quantity off an order of the book.
  pub decrement-Keeps :
      (v : VisibleOrder) (q : ℕ)
      → q ≤ v.remaining_quantity
      → lookup v.reference s.visible.book.orders ≡ some v
      → Keeps (λ _ s'. (b : VisibleBook) × (s' ≡ put_book b s)) (decrement v q s)
  unfolding decrement modify
  decrement-Keeps v q le e =
      let (b, r, c) = decrement_visible-IsConsistent v s.visible.book w.sound.book q le e in
      Ends-gets _ _ s (Ends-or_key_error _ _ s r (returns (put_book-IsWithin s w b c, (b, refl))))

  pub remove-Keeps :
      (v : VisibleOrder)
      → lookup v.reference s.visible.book.orders ≡ some v
      → Keeps
          (λ _ s'.
            (b : VisibleBook) × (s' ≡ put_book b s)
            × (b.orders ≡ erase v.reference s.visible.book.orders))
          (remove v s)
  unfolding remove modify
  remove-Keeps v e =
      let (b, r, c, o) = remove_visible-IsConsistent v s.visible.book w.sound.book e in
      Ends-gets _ _ s
        (Ends-or_key_error _ _ s r (returns (put_book-IsWithin s w b c, (b, refl, o))))

  pub drop_some-IsWithin : (t : Option TrackedQueue) (r : ℕ) → IsWithin (drop_some t r s)
  drop_some-IsWithin none r = w
  drop_some-IsWithin (some t) r = put_queues-IsWithin s w _

  pub give_up_some-Keeps :
      (t : Option TrackedQueue) (r q : ℕ) → Keeps (Frame s) (give_up_some t r q s)
  unfolding give_up
  give_up_some-Keeps none r q = Ends-pure tt s (w, (refl, refl))
  give_up_some-Keeps (some t) r q =
      Ends-bind {Q = λ _ s'. IsWithin s' × Frame s tt s'} _ _ s
        (Ends-lift _ _ s w.sound
          λ t' _. Ends-modify _ _ s (Ends-pure t' _ (put_queues-IsWithin s w _, (refl, refl))))
        λ _ s' h. Ends-pure tt s' h

  pub apply_broken_trade-Keeps : (e : MarketEvent) → Keeps (Frame s) (apply_broken_trade e s)
  unfolding apply_broken_trade modify lift
  apply_broken_trade-Keeps e =
      Ends-gets _ _ s (elim (Option-cases (lookup (cast e.primary_reference) s.used_fill_matches)) [
        | inl n ↦ rw n (returns (noted-IsWithin s w (broken_trade_diagnostic e) refl, (refl, refl)))
        | inr (id, f) ↦ rw f (raises w.sound)
      ])

module _ (s : VisibleQueueModel) (w : IsWithin s) where
  -- The rest of a handler runs on the order that was found.
  pub with_order-Keeps :
      {A : Type 0} {R : A → VisibleQueueModel → Type 0} (e : MarketEvent) (a : A)
      (rest : VisibleOrder → Method VisibleQueueModel A)
      → ((s' : VisibleQueueModel) → Frame s tt s' → R a s')
      → ((v : VisibleOrder)
          → lookup v.reference s.visible.book.orders ≡ some v
          → (v.symbol_id ≡ e.symbol_id)
            × (same_side v.side e.side ≡ true)
            × (e.price4 ≡ some v.price4)
          → Keeps R (rest v s))
      → Keeps R ((validated_existing_order e >>= with_order a rest) s)
  with_order-Keeps {R} e a rest miss k = Ends-bind _ _ s (validated_existing_order-Keeps s w e) step
    where
      step :
          (found : Option VisibleOrder) (s' : VisibleQueueModel)
          → IsWithin s' × Found s w e found s'
          → Keeps R (with_order a rest found s')
      step none s' h = Ends-pure a s' (h.0, miss s' h.1)
      step (some v) s' h = rw (h.1.0) (k v h.1.1 (h.1.2, h.1.3, h.1.4))

  drop-Frame :
      (s' : VisibleQueueModel) (t : Option TrackedQueue) (r : ℕ)
      → Frame s tt s'
      → Frame s tt (drop_some t r s')
  drop-Frame s' none r h = h
  drop-Frame s' (some t) r h = h

  cancel_order-Keeps :
      (e : MarketEvent) (v : VisibleOrder)
      → lookup v.reference s.visible.book.orders ≡ some v
      → Keeps (Frame s) (cancel_order e v s)
  unfolding cancel_order
  cancel_order-Keeps e v f =
      Ends-if (mismatch e v) _ _ s (λ _. skipped-Keeps s w e _ none false)
        λ m.
          Ends-bind _ _ s (decrement-Keeps s w v (cast e.quantity) (mismatch-covers e v m) f)
            λ _ s' h. Ends-gets _ _ s' (
              Ends-bind _ _ s' (give_up_some-Keeps s' h.0 _ _ _)
                λ _ t k. Ends-pure true t (k.0, ground (arith, h.1.1, k.1)))

  pub apply_cancel-Keeps : (e : MarketEvent) → Keeps (Frame s) (apply_cancel e s)
  unfolding apply_cancel
  apply_cancel-Keeps e =
      with_order-Keeps e false (cancel_order e) (λ _ h. h) λ v f _. cancel_order-Keeps e v f

  delete_order-Keeps :
      (e : MarketEvent) (v : VisibleOrder)
      → lookup v.reference s.visible.book.orders ≡ some v
      → Keeps (Frame s) (delete_order e v s)
  unfolding delete_order
  delete_order-Keeps e v f =
      Ends-if (not (same_number e.quantity (some v.remaining_quantity))) _ _ s
        (λ _. skipped-Keeps s w e _ none false)
        λ _. Ends-bind _ _ s (remove-Keeps s w v f) λ _ s' h. Ends-modify _ _ s' (
          Ends-pure true _ (
            drop_some-IsWithin s' h.0 _ _,
            drop-Frame s' (holder v.reference s') v.reference (ground (arith, h.1.1)),
          ))

  pub apply_delete-Keeps : (e : MarketEvent) → Keeps (Frame s) (apply_delete e s)
  unfolding apply_delete
  apply_delete-Keeps e =
      with_order-Keeps e false (delete_order e) (λ _ h. h) λ v f _. delete_order-Keeps e v f

  drop_some_book :
      (t : Option TrackedQueue) (r : ℕ) → (drop_some t r s).visible.book ≡ s.visible.book
  drop_some_book none r = refl
  drop_some_book (some t) r = refl

  replace_order-Keeps :
      (e : MarketEvent) (v : VisibleOrder)
      → lookup v.reference s.visible.book.orders ≡ some v
      → lookup (cast e.secondary_reference) s.visible.book.orders ≡ none
      → Keeps (Frame s) (replace_order e v s)
  unfolding replace_order
  replace_order-Keeps e v f n =
      let t = drop_some (holder v.reference s) v.reference s in
      let same = drop_some_book (holder v.reference s) v.reference in
      Ends-modify _ _ s (
        Ends-bind _ _ t (remove-Keeps t (drop_some-IsWithin s w _ _) v (rw same f)) λ _ u h.
          Ends-modify _ _ u (
            Ends-pure true _ (
              show-IsWithin u h.0 (order_of (cast e.secondary_reference) e) (
                  ground (
                    arith,
                    h,
                    same,
                    n,
                    lookup-erase v.reference (cast e.secondary_reference) s.visible.book.orders,
                  )),
              ground (arith, h.1.1, drop-Frame s (holder v.reference s) v.reference (refl, refl)),
            )))

  replace_found :
      (e : MarketEvent) (v : VisibleOrder)
      → lookup (cast e.primary_reference) s.visible.book.orders ≡ some v
      → Keeps (Frame s) (apply_replace e s)
  unfolding apply_replace
  replace_found e v f = Ends-gets _ _ s (
      rw f (
        Ends-if
          (eqb (cast e.secondary_reference) v.reference
            || contains (cast e.secondary_reference) s.visible.book.orders)
          _ _ s (λ _. skipped-Keeps s w e _ none false)
          λ fresh.
            Ends-if (not (eqb v.symbol_id e.symbol_id) || not (same_side v.side e.side)) _ _ s
              (λ _. skipped-Keeps s w e _ none false)
              λ _.
                replace_order-Keeps e v
                  (ground (arith, f, w.sound.book.keyed (cast e.primary_reference) v f))
                  (ground (arith, fresh))))

  pub apply_replace-Keeps : (e : MarketEvent) → Keeps (Frame s) (apply_replace e s)
  apply_replace-Keeps e =
      elim (Option-cases (lookup (cast e.primary_reference) s.visible.book.orders)) [
        | inl n ↦ unfold apply_replace in Ends-gets _ _ s (rw n (skipped-Keeps s w e _ none false))
        | inr (v, f) ↦ replace_found e v f
      ]
