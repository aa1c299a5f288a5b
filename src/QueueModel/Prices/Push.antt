-- ===== src/QueueModel/Prices/Push.antt =====
-- queue_model.py: a price that enters the heap of its side.
use itch_lab.Base.{
  ◌≡◌, refl, ap, ℕ, true, false, ◌||◌, ◌⊎◌, inl, inr, List, [], ◌∷◌, All, arith, eqb, nat_eq,
  Bool-cases,
}
use itch_lab.Base.Int.{ℤ, abs, ltb_ℤ, leb_ℤ, eqb_ℤ, eqb_ℤ_iff}
use itch_lab.Base.Dict.{Dict, contains}
use itch_lab.StateMachine.{Slot}
use itch_lab.QueueModel.Book.{LevelKey, level_eq, encode, has_price, push_price}
use itch_lab.QueueModel.Prices.{has, Ascending, abs-encode, IsPriced}

has-push_price : (p q : ℤ) (h : List ℤ) → has q (push_price p h) ≡ (eqb_ℤ p q || has q h)
unfolding push_price
has-push_price p q [] = refl
has-push_price p q (r ∷ h) = ground (arith, has-push_price p q h)

All-push_price : (P : ℤ → Type 0) (p : ℤ) (h : List ℤ) → P p → All P h → All P (push_price p h)
unfolding push_price
All-push_price P p [] x a = (x, tt)
All-push_price P p (r ∷ h) x a = elim (Bool-cases (leb_ℤ p r)) [
  | inl e ↦ rw e (x, a)
  | inr e ↦ rw e (a.0, All-push_price P p h x a.1)
]

All-below :
    (p q : ℤ) (h : List ℤ)
    → ltb_ℤ p q ≡ true
    → All (λ r. ltb_ℤ q r ≡ true) h
    → All (λ r. ltb_ℤ p r ≡ true) h
All-below p q [] e a = tt
All-below p q (r ∷ h) e a = (ground (arith, e, a.0), All-below p q h e a.1)

push_price-Ascending :
    (p : ℤ) (h : List ℤ) → has p h ≡ false → Ascending h → Ascending (push_price p h)
unfolding push_price
push_price-Ascending p [] n a = (tt, tt)
push_price-Ascending p (r ∷ h) n a = elim (Bool-cases (leb_ℤ p r)) [
  | inl e ↦
      let lt : ltb_ℤ p r ≡ true = ground (arith, e, n, eqb_ℤ_iff r p) in
      rw e ((lt, All-below p r h lt a.0), a)
  | inr e ↦ rw e (
    All-push_price (λ q. ltb_ℤ r q ≡ true) p h (ground (arith, e)) a.0,
    push_price-Ascending p h (ground (arith, n)) a.1,
  )
]

module _ (k : Slot) (levels : Dict LevelKey (Dict ℕ ℕ)) (h : List ℤ) (ps : List ℕ)
    (v : IsPriced k levels h ps) where
  -- The levels may become others whose prices are known to the heap.
  pub levels-IsPriced :
      (levels' : Dict LevelKey (Dict ℕ ℕ))
      → ((q : ℕ)
          → contains (k, q) levels' ≡ true
          → (contains (k, q) levels ≡ true) ⊎ (has_price q ps ≡ true))
      → IsPriced k levels' h ps
  levels-IsPriced levels' c = record {
    sorted = v.sorted;
    encoded = v.encoded;
    known = v.known;
    single = v.single;
    complete = λ q d. elim (c q d) [
      | inl old ↦ v.complete q old
      | inr new ↦ ground (arith, new, v.known q)
    ];
  }

  push-known :
      (p q : ℕ) → (eqb p q || has_price q ps) ≡ has (encode k.1 q) (push_price (encode k.1 p) h)
  push-known p q = ground (
    arith,
    has-push_price (encode k.1 p) (encode k.1 q) h,
    v.known q,
    eqb_ℤ_iff (encode k.1 p) (encode k.1 q),
    abs-encode k.1 p,
    abs-encode k.1 q,
  )

  -- A price that was not known enters the heap and the set.
  pub push-IsPriced :
      (p : ℕ) → has_price p ps ≡ false → IsPriced k levels (push_price (encode k.1 p) h) (p ∷ ps)
  push-IsPriced p n = record {
    sorted = push_price-Ascending (encode k.1 p) h (ground (arith, n, v.known p)) v.sorted;
    encoded =
        All-push_price (λ q. encode k.1 (abs q) ≡ q) (encode k.1 p) h
          (ap (encode k.1) (abs-encode k.1 p)) v.encoded;
    known = λ q. ground (arith, push-known p q);
    single = (n, v.single);
    complete =
        λ q c. ground (arith, has-push_price (encode k.1 p) (encode k.1 q) h, v.complete q c);
  }
