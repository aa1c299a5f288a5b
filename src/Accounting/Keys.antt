-- ===== src/Accounting/Keys.antt =====
-- accounting.py: the keys that `snapshot` sorts ascend, and hold the keys of both dictionaries.
use itch_lab.Base.{◌≡◌, refl, ℕ, ◌<◌, ◌||◌, true, List, [], ◌∷◌, All, arith, nat_eq, eqb}
use itch_lab.Base.Dict.{Dict, lookup, contains}
use itch_lab.Accounting.Liquidation.{member}
use itch_lab.Accounting.Snapshot.{insert_key, add_keys}

-- Keys that ascend.
abbrev pub Ascending : List ℕ → Type 0
Ascending [] = Unit
Ascending (k ∷ ks) = All (λ j. k < j) ks × Ascending ks

All-insert_key :
    (i k : ℕ) (l : List ℕ) → i < k → All (λ j. i < j) l → All (λ j. i < j) (insert_key k l)
unfolding insert_key
All-insert_key i k [] h a = (h, tt)
All-insert_key i k (j ∷ l) h a = ground (arith, All-insert_key i k l h a.1)

above_first : (k j : ℕ) (l : List ℕ) → k < j → All (λ i. j < i) l → All (λ i. k < i) l
above_first k j [] h a = tt
above_first k j (i ∷ l) h a = (omega arith, above_first k j l h a.1)

insert_key-Ascending : (k : ℕ) (l : List ℕ) → Ascending l → Ascending (insert_key k l)
unfolding insert_key
insert_key-Ascending k [] a = (tt, tt)
insert_key-Ascending k (j ∷ l) a =
    ground (arith, insert_key-Ascending k l a.1, All-insert_key j k l, above_first k j l)

pub add_keys-Ascending :
    {V : Type 0} (d : Dict ℕ V) (l : List ℕ) → Ascending l → Ascending (add_keys d l)
unfolding add_keys
add_keys-Ascending [] l a = a
add_keys-Ascending ((k, _) ∷ d) l a =
    insert_key-Ascending k (add_keys d l) (add_keys-Ascending d l a)

member-insert_key : (j k : ℕ) (l : List ℕ) → member j (insert_key k l) ≡ (eqb j k || member j l)
unfolding insert_key
member-insert_key j k [] = refl
member-insert_key j k (i ∷ l) = ground (arith, member-insert_key j k l)

pub add_keys-member :
    {V : Type 0} (j : ℕ) (d : Dict ℕ V) (l : List ℕ)
    → contains j d ≡ true
    → member j (add_keys d l) ≡ true
unfolding add_keys lookup
add_keys-member j [] l h = ground (arith, h)
add_keys-member j ((k, _) ∷ d) l h =
    ground (arith, member-insert_key j k (add_keys d l), add_keys-member j d l)
