-- ===== src/Liquidation/Open.antt =====
-- liquidation.py: the open orders are the live orders of the machine, each once.
use itch_lab.Base.{
  ◌≡◌, refl, ◌⊎◌, inl, inr, ℕ, false, none, some, List, [], ◌∷◌, map, arith, nat_eq, eqb, ltb, All,
  if◌then◌else◌, Bool-cases,
}
use itch_lab.Base.Dict.{Dict, lookup}
use itch_lab.Order.{SimulatedOrder, terminal}
use itch_lab.StateMachine.{OrderStateMachine, insert_by_id, sort_by_id, orders_of}
use itch_lab.Base.Dict.{IsDict}
use itch_lab.Liquidation.{live_orders}

abbrev pub Entry : Type 0
Entry = ℕ × SimulatedOrder

-- The entries have different keys.
abbrev pub Distinct : List Entry → Type 0
Distinct [] = Unit
Distinct (e ∷ l) = All (λ f. eqb f.0 e.0 ≡ false) l × Distinct l

-- The entry stands in the list.
abbrev pub Has : ℕ → SimulatedOrder → List Entry → Type 0
Has id p [] = ⊥
Has id p ((j, q) ∷ l) = ((j ≡ id) × (q ≡ p)) ⊎ Has id p l

pub lookup-Has :
    (id : ℕ) (p : SimulatedOrder) (d : Dict ℕ SimulatedOrder) → lookup id d ≡ some p → Has id p d
unfolding lookup
lookup-Has id p [] e = absurd (cc)
lookup-Has id p ((j, q) ∷ d) e = ground (arith, lookup-Has id p d)

absent-All :
    (k : ℕ) (d : Dict ℕ SimulatedOrder) → lookup k d ≡ none → All (λ f. eqb f.0 k ≡ false) d
unfolding lookup
absent-All k [] e = tt
absent-All k ((j, q) ∷ d) e = ground (arith, absent-All k d)

dict-Distinct : (d : Dict ℕ SimulatedOrder) → IsDict d → Distinct d
dict-Distinct [] h = tt
dict-Distinct ((k, o) ∷ d) h = (absent-All k d h.0, dict-Distinct d h.1)

module _ (P : Entry → Type 0) where
  All-insert : (e : Entry) (l : List Entry) → P e → All P l → All P (insert_by_id e l)
  unfolding insert_by_id
  All-insert (k, o) [] p h = (p, tt)
  All-insert (k, o) ((j, q) ∷ l) p h = ground (arith, All-insert (k, o) l p h.1)

  pub All-sort : (d : List Entry) → All P d → All P (sort_by_id d)
  unfolding sort_by_id
  All-sort [] h = tt
  All-sort (e ∷ d) h = All-insert e (sort_by_id d) h.0 (All-sort d h.1)

insert-Distinct :
    (k : ℕ) (o : SimulatedOrder) (l : List Entry)
    → All (λ f. eqb f.0 k ≡ false) l
    → Distinct l
    → Distinct (insert_by_id (k, o) l)
unfolding insert_by_id
insert-Distinct k o [] a h = (tt, tt)
insert-Distinct k o ((j, q) ∷ l) a h = elim (Bool-cases (ltb k j)) [
  | inl e ↦ rw e (a, h)
  | inr e ↦ rw e (
    All-insert (λ f. eqb f.0 j ≡ false) (k, o) l (ground (arith, a.0)) h.0,
    insert-Distinct k o l a.1 h.1,
  )
]

sort-Distinct : (d : List Entry) → Distinct d → Distinct (sort_by_id d)
unfolding sort_by_id
sort-Distinct [] h = tt
sort-Distinct ((k, o) ∷ d) h =
    insert-Distinct k o (sort_by_id d) (All-sort (λ f. eqb f.0 k ≡ false) d h.0)
      (sort-Distinct d h.1)

insert-Has :
    (id : ℕ) (p : SimulatedOrder) (k : ℕ) (o : SimulatedOrder) (l : List Entry)
    → Has id p ((k, o) ∷ l)
    → Has id p (insert_by_id (k, o) l)
unfolding insert_by_id
insert-Has id p k o [] h = h
insert-Has id p k o ((j, q) ∷ l) h = ground (arith, insert-Has id p k o l)

sort-Has : (id : ℕ) (p : SimulatedOrder) (d : List Entry) → Has id p d → Has id p (sort_by_id d)
unfolding sort_by_id
sort-Has id p [] h = h
sort-Has id p ((k, o) ∷ d) (inl e) = insert-Has id p k o (sort_by_id d) (inl e)
sort-Has id p ((k, o) ∷ d) (inr h) = insert-Has id p k o (sort_by_id d) (inr (sort-Has id p d h))

-- The machine's orders and those that are open, as entries.
abbrev pub live_entries : List Entry → List Entry
live_entries [] = []
live_entries ((k, o) ∷ l) = let rest = live_entries l in if terminal o then rest else (k, o) ∷ rest

abbrev pub values : List Entry → List SimulatedOrder
values [] = []
values (e ∷ l) = e.1 ∷ values l

live_orders-map :
    (l : List Entry) → live_orders (map (λ (e : Entry). e.1) l) ≡ values (live_entries l)
unfolding live_orders
live_orders-map [] = refl
live_orders-map ((k, o) ∷ l) = ground (arith, live_orders-map l)

module _ (P : Entry → Type 0) where
  All-live : (l : List Entry) → All P l → All P (live_entries l)
  All-live [] h = tt
  All-live ((k, o) ∷ l) h = ground (arith, All-live l h.1, h.0)

live-Distinct : (l : List Entry) → Distinct l → Distinct (live_entries l)
live-Distinct [] h = tt
live-Distinct ((k, o) ∷ l) h = elim (Bool-cases (terminal o)) [
  | inl e ↦ rw e (live-Distinct l h.1)
  | inr e ↦ rw e (All-live (λ f. eqb f.0 k ≡ false) l h.0, live-Distinct l h.1)
]

live-live : (l : List Entry) → All (λ e. terminal e.1 ≡ false) (live_entries l)
live-live [] = tt
live-live ((k, o) ∷ l) = ground (arith, live-live l)

live-Has :
    (id : ℕ) (p : SimulatedOrder) (l : List Entry)
    → terminal p ≡ false
    → Has id p l
    → Has id p (live_entries l)
live-Has id p [] e h = h
live-Has id p ((k, o) ∷ l) e h = ground (arith, live-Has id p l e)

pub found-All :
    (d l : Dict ℕ SimulatedOrder)
    → IsDict l
    → ((id : ℕ) (p : SimulatedOrder) → lookup id l ≡ some p → lookup id d ≡ some p)
    → All (λ e. lookup e.0 d ≡ some e.1) l
unfolding lookup
found-All d [] h f = tt
found-All d ((k, o) ∷ l) h f =
    (f k o (ground arith), found-All d l h.1 (λ id p e. f id p (ground (arith, e, h.0))))

-- The entries of the open orders: found in the dictionary, live, each once, and with every live
-- order of it.
pub record OpenEntries (d : Dict ℕ SimulatedOrder) (l : List Entry) : Type 0 where
  pub found : All (λ e. lookup e.0 d ≡ some e.1) l
  pub live : All (λ e. terminal e.1 ≡ false) l
  pub distinct : Distinct l
  pub all_live :
      (id : ℕ) (p : SimulatedOrder) → lookup id d ≡ some p → terminal p ≡ false → Has id p l

abbrev pub open_entries : OrderStateMachine → List Entry
open_entries s = live_entries (sort_by_id s.orders)

pub open_orders_lem : (s : OrderStateMachine) → live_orders (orders_of s) ≡ values (open_entries s)
unfolding orders_of
open_orders_lem s = live_orders-map (sort_by_id s.orders)

pub open_entries-OpenEntries :
    (s : OrderStateMachine) → IsDict s.orders → OpenEntries s.orders (open_entries s)
open_entries-OpenEntries s h = record {
  found =
      All-live _ (sort_by_id s.orders)
        (All-sort _ s.orders (found-All s.orders s.orders h (λ _ _ e. e)));
  live = live-live (sort_by_id s.orders);
  distinct =
      live-Distinct (sort_by_id s.orders) (sort-Distinct s.orders (dict-Distinct s.orders h));
  all_live = λ id p e t.
      live-Has id p (sort_by_id s.orders) t (sort-Has id p s.orders (lookup-Has id p s.orders e));
}
