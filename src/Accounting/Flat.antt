-- ===== src/Accounting/Flat.antt =====
-- accounting.py: which positions a terminal plan leaves open.
use itch_lab.Base.{◌≡◌, refl, ◌⊎◌, inl, inr, ℕ, true, none, List, [], ◌∷◌, arith, nat_eq, All}
use itch_lab.Base.Int.{ℤ, pos, eqb_ℤ_iff}
use itch_lab.Base.Dict.{Dict, lookup, insert}
use itch_lab.Base.Result.{ok, raise_if, >>=-eq-ok}
use itch_lab.Accounting.{TerminalTrade}
use itch_lab.Base.Dict.{IsDict}
use itch_lab.Accounting.Marks.{Marked, apply_mark_to_copies}
use itch_lab.Accounting.Liquidation.{
  member, mark_trades, nonzero_symbols, subset, insert_item, sorted_items, validate_terminal_trade,
}

-- Every position is zero, or of one of the symbols.
abbrev pub Only : List ℕ → Dict ℕ ℤ → Type 0
Only ks = All (λ e. (e.1 ≡ pos 0) ⊎ (member e.0 ks ≡ true))

abbrev pub IsFlat : Dict ℕ ℤ → Type 0
IsFlat = All (λ e. e.1 ≡ pos 0)

abbrev pub symbols_of : List TerminalTrade → List ℕ
symbols_of [] = []
symbols_of (t ∷ ts) = t.symbol_id ∷ symbols_of ts

pub nonzero-Only : (d : Dict ℕ ℤ) (l : List ℕ) → subset (nonzero_symbols d) l ≡ true → Only l d
unfolding nonzero_symbols
nonzero-Only [] l h = tt
nonzero-Only ((k, v) ∷ d) l h = ground (arith, nonzero-Only d l, eqb_ℤ_iff v (pos 0))

pub Only-weaken :
    (l m : List ℕ) (d : Dict ℕ ℤ)
    → ((k : ℕ) → member k l ≡ true → member k m ≡ true)
    → Only l d
    → Only m d
Only-weaken l m [] f h = tt
Only-weaken l m ((k, v) ∷ d) f (inl z, h) = (inl z, Only-weaken l m d f h)
Only-weaken l m ((k, v) ∷ d) f (inr i, h) = (inr (f k i), Only-weaken l m d f h)

Only-absent : (k : ℕ) (ks : List ℕ) (d : Dict ℕ ℤ) → lookup k d ≡ none → Only (k ∷ ks) d → Only ks d
unfolding lookup
Only-absent k ks [] e h = tt
Only-absent k ks ((j, v) ∷ d) e h = ground (arith, Only-absent k ks d, h.0, h.1)

-- Closing a symbol takes it off the list.
pub Only-close :
    (k : ℕ) (ks : List ℕ) (d : Dict ℕ ℤ) → IsDict d → Only (k ∷ ks) d → Only ks (insert k (pos 0) d)
unfolding insert
Only-close k ks [] u h = (inl refl, tt)
Only-close k ks ((j, v) ∷ d) u h =
    ground (arith, Only-absent k ks d, Only-close k ks d u.1 h.1, h.0, h.1, u.0)

pub Only-none : (d : Dict ℕ ℤ) → Only [] d → IsFlat d
Only-none [] h = tt
Only-none ((k, v) ∷ d) h = ground (arith, h.0, Only-none d h.1)

insert_item-IsFlat :
    (k : ℕ) (v : ℤ) (d : Dict ℕ ℤ) → v ≡ pos 0 → IsFlat d → IsFlat (insert_item (k, v) d)
unfolding insert_item
insert_item-IsFlat k v [] z h = (z, tt)
insert_item-IsFlat k v ((j, w) ∷ d) z h = ground (arith, insert_item-IsFlat k v d z h.1)

pub sorted_items-IsFlat : (d : Dict ℕ ℤ) → IsFlat d → IsFlat (sorted_items d)
unfolding sorted_items
sorted_items-IsFlat [] h = tt
sorted_items-IsFlat ((k, v) ∷ d) h =
    insert_item-IsFlat k v (sorted_items d) h.0 (sorted_items-IsFlat d h.1)

-- The symbols seen by the first loop are those of the trades and those seen before.
pub mark_trades_seen :
    (ts : List TerminalTrade) (seen : List ℕ) (m : Marked) {out : List ℕ × Marked}
    → mark_trades ts seen m ≡ ok out
    → (k : ℕ) → member k out.0 ≡ true
    → (member k (symbols_of ts) ≡ true) ⊎ (member k seen ≡ true)
unfolding mark_trades
mark_trades_seen [] seen m h k i = ground arith
mark_trades_seen (t ∷ ts) seen m h k i =
    let (u, e1, h1) = >>=-eq-ok (validate_terminal_trade t) _ h in
    let (v, e2, h2) = >>=-eq-ok (raise_if (member t.symbol_id seen) _) _ h1 in
    let (m', e3, h3) =
      >>=-eq-ok
        (apply_mark_to_copies t.symbol_id t.mark_mid2 m.positions m.marks
          m.inventory_mark_to_market)
        _ h2 in
    ground (arith, mark_trades_seen ts (t.symbol_id ∷ seen) m' h3 k i)
