-- ===== src/QueueModel/Book.antt =====
-- queue_model.py: the visible book, as orders by reference, quantities by level, and heaps of prices.
-- A heap of prices is modelled as its sorted list.
use itch_lab.Base.{
  ◌≡◌, ◌↔◌, ℕ, ◌-◌, Bool, true, false, ◌&&◌, ◌||◌, not, Option, none, some, List, [], ◌∷◌, arith,
  eqb, ltb, nat_eq, Eq, if◌then◌else◌,
}
use itch_lab.Base.Int.{ℤ, pos, negsuc, neg, abs, leb_ℤ, eqb_ℤ}
use itch_lab.Base.Dict.{Dict, lookup, contains, insert, erase}
use itch_lab.StateMachine.{Slot, eqb_slot, eqb_slot_iff, slot_eq}

-- `_VisibleOrder`
pub record VisibleOrder : Type 0 where
  pub reference : ℕ
  pub symbol_id : ℕ
  pub side : ℤ
  pub price4 : ℕ
  pub remaining_quantity : ℕ
  pub priority_message_index : ℕ

-- (symbol_id, side, price4)
abbrev pub LevelKey : Type 0
LevelKey = Slot × ℕ

abbrev pub eqb_level : LevelKey → LevelKey → Bool
eqb_level (a, p) (b, q) = eqb_slot a b && eqb p q

pub eqb_level_iff : (a b : LevelKey) → (eqb_level a b ≡ true) ↔ (a ≡ b)
eqb_level_iff (a, p) (b, q) = ground (arith, eqb_slot_iff a b)

instance abbrev pub level_eq : Eq LevelKey
level_eq = record { beq = eqb_level; beq_iff = eqb_level_iff }

pub record VisibleBook : Type 0 where
  pub orders : Dict ℕ VisibleOrder
  pub levels : Dict LevelKey (Dict ℕ ℕ)
  pub price_heaps : Dict Slot (List ℤ)
  pub heap_prices : Dict Slot (List ℕ)

abbrev pub empty_book : VisibleBook
empty_book = record { orders = []; levels = []; price_heaps = []; heap_prices = [] }

abbrev pub side_key : VisibleOrder → Slot
side_key v = (v.symbol_id, v.side)

abbrev pub level_key : VisibleOrder → LevelKey
level_key v = (side_key v, v.price4)

-- `levels.get(key, {})`
abbrev pub level_of : LevelKey → Dict LevelKey (Dict ℕ ℕ) → Dict ℕ ℕ
level_of k levels = elim (lookup k levels) [ none ↦ [] | some l ↦ l ]

abbrev pub is_empty {ℓ} : {A : Type ℓ} → List A → Bool
is_empty [] = true
is_empty (_ ∷ _) = false

-- `d.get(key, [])`
abbrev pub list_of {ℓ} : {A : Type ℓ} → Slot → Dict Slot (List A) → List A
list_of k d = elim (lookup k d) [ none ↦ [] | some l ↦ l ]

abbrev pub has_price : ℕ → List ℕ → Bool
has_price p [] = false
has_price p (q ∷ ps) = eqb p q || has_price p ps

-- `price4 if side == -1 else -price4`
abbrev pub encode : ℤ → ℕ → ℤ
encode side price4 = if eqb_ℤ side (negsuc 0) then pos price4 else neg (pos price4)

-- `heapq.heappush`
unfoldable pub push_price : ℤ → List ℤ → List ℤ
push_price p [] = p ∷ []
push_price p (q ∷ h) = if leb_ℤ p q then p ∷ q ∷ h else q ∷ push_price p h

-- The book with the price known to its side's heap.
unfoldable pub add_price : VisibleOrder → VisibleBook → VisibleBook
add_price v b = if has_price v.price4 (list_of (side_key v) b.heap_prices) then b else (record b {
  price_heaps =
      insert (side_key v) (push_price (encode v.side v.price4) (list_of (side_key v) b.price_heaps))
        b.price_heaps;
  heap_prices = insert (side_key v) (v.price4 ∷ list_of (side_key v) b.heap_prices) b.heap_prices;
})

-- The book with a quantity at its level, and the order under its reference.
abbrev pub shown_at : VisibleOrder → VisibleBook → VisibleBook
shown_at v b = record b {
  orders = insert v.reference v b.orders;
  levels =
      insert (level_key v)
        (insert v.reference v.remaining_quantity (level_of (level_key v) b.levels)) b.levels;
}

-- `_insert_visible_order`
unfoldable pub insert_visible : VisibleOrder → VisibleBook → VisibleBook
insert_visible v b =
    shown_at v (if is_empty (level_of (level_key v) b.levels) then add_price v b else b)

-- `_remove_visible_order`; `none` is a KeyError.
unfoldable pub remove_visible : VisibleOrder → VisibleBook → Option VisibleBook
remove_visible v b =
    if not (contains v.reference b.orders) then none else elim (lookup (level_key v) b.levels) [
      | none ↦ none
      | some level ↦
          if not (contains v.reference level)
          then none
          else some (record b {
            orders = erase v.reference b.orders;
            levels =
                if is_empty (erase v.reference level)
                then erase (level_key v) b.levels
                else insert (level_key v) (erase v.reference level) b.levels;
          })
    ]

-- `_decrement_visible`. Beyond the remainder the source keeps the order with a negative remainder,
-- which a natural number cannot hold: there the function has no result, `none` as for a KeyError.
-- Its callers test `mismatch` first, which leaves no such quantity.
unfoldable pub decrement_visible : VisibleOrder → ℕ → VisibleBook → Option VisibleBook
decrement_visible v quantity b =
    if ltb v.remaining_quantity quantity
    then none
    else if eqb (v.remaining_quantity - quantity) 0
    then remove_visible v b
    else elim (lookup (level_key v) b.levels) [
      | none ↦ none
      | some level ↦
          some (shown_at (record v { remaining_quantity = v.remaining_quantity - quantity }) b)
    ]

-- `set.remove`; `none` is its KeyError.
unfoldable pub remove_price : ℕ → List ℕ → Option (List ℕ)
remove_price p [] = none
remove_price p (q ∷ ps) =
    let rest = remove_price p ps in
    if eqb p q then some ps else elim rest [ none ↦ none | some qs ↦ some (q ∷ qs) ]

-- The loop of `_best_visible_price`: the best price if there is one, and the heap and the prices
-- that it leaves. A first `none` is the KeyError of a popped price that the set does not have.
unfoldable pub best_price :
    Slot → Dict LevelKey (Dict ℕ ℕ) → List ℤ → List ℕ → Option (Option ℕ) × List ℤ × List ℕ
best_price k levels [] prices = (some none, [], prices)
best_price k levels (p ∷ h) prices =
    if contains (k, abs p) levels
    then (some (some (abs p)), p ∷ h, prices)
    else elim (remove_price (abs p) prices) [
      | none ↦ (none, h, prices)
      | some left ↦ best_price k levels h left
    ]

-- `_best_visible_price`
unfoldable pub best_visible_price : ℕ → ℤ → VisibleBook → Option (Option ℕ) × VisibleBook
best_visible_price symbol_id side b = elim (lookup (symbol_id, side) b.price_heaps) [
  | none ↦ (some none, b)
  | some heap ↦
      let (best, heap', prices) =
        best_price (symbol_id, side) b.levels heap (list_of (symbol_id, side) b.heap_prices) in
      (
        best,
        record b {
          price_heaps = insert (symbol_id, side) heap' b.price_heaps;
          heap_prices = insert (symbol_id, side) prices b.heap_prices;
        },
      )
]
