-- ===== src/Accounting/Rows.antt =====
-- accounting.py: the rows of `snapshot` add up to the value of the positions, so its comparison of
-- the two ways to the profit does not fail.
use itch_lab.Base.{
  ◌≡◌, refl, ◌∙◌, sym, ap, subst, inl, inr, ℕ, ◌<◌, true, Option, none, some, List, [], ◌∷◌, All,
  arith, nat_eq, eqb, eqb_iff, Bool-cases,
}
use itch_lab.Base.Int.{ℤ, pos, ◌+ℤ◌, add_zero, zero_+ℤ, +ℤ_assoc, int_laws}
use itch_lab.Base.Dict.{Dict, IsDict, lookup, contains}
use itch_lab.Base.Result.{Result, ok, err, Result-cases}
use itch_lab.Errors.{SimulationError}
use itch_lab.Accounting.{AccountingLedger, SymbolAccounting, marked_value, mark_value}
use itch_lab.Accounting.Marks.{position, reconcile}
use itch_lab.Accounting.Identity.{value_of, value_of-zero, marked}
use itch_lab.Accounting.Liquidation.{member}
use itch_lab.Accounting.Reconcile.{
  Quiet, sum_from, checked_int64_ok, checked_int64-Quiet, reconcile-Quiet,
}
use itch_lab.Accounting.FillOutcome.{IsBalancedLedger}
use itch_lab.Accounting.Snapshot.{symbol_keys, value_at, symbol_rows, snapshot, max_abs_of}
use itch_lab.Accounting.Keys.{Ascending, add_keys-Ascending, add_keys-member}

-- The values of the keys' positions, added up.
abbrev total : Dict ℕ ℤ → Dict ℕ ℕ → List ℕ → ℤ
total d ms [] = pos 0
total d ms (k ∷ ks) = value_of (position k d) (lookup k ms) +ℤ total d ms ks

total-empty : (ms : Dict ℕ ℕ) (ks : List ℕ) → total [] ms ks ≡ pos 0
unfolding lookup
total-empty ms [] = refl
total-empty ms (k ∷ ks) =
    ground (arith, total-empty ms ks, value_of-zero (lookup k ms), add_zero (pos 0))

move_first : (a b c : ℤ) → a +ℤ (b +ℤ c) ≡ b +ℤ (a +ℤ c)
move_first a b c = omega int_laws

module _ (k : ℕ) (v : ℤ) (d : Dict ℕ ℤ) (ms : Dict ℕ ℕ) where
  total-absent : (ks : List ℕ) → All (λ j. k < j) ks → total ((k, v) ∷ d) ms ks ≡ total d ms ks
  unfolding lookup
  total-absent [] a = refl
  total-absent (j ∷ ks) a = ground (arith, total-absent ks a.1, a.0)

  total-cons :
      (ks : List ℕ)
      → Ascending ks
      → member k ks ≡ true
      → lookup k d ≡ none
      → total ((k, v) ∷ d) ms ks ≡ value_of v (lookup k ms) +ℤ total d ms ks
  unfolding lookup
  total-cons [] a h n = ground (arith, h)
  total-cons (j ∷ ks) a h n = elim (Bool-cases (eqb j k)) [
    | inl e ↦
        let i = (eqb_iff j k).0 e in
        ground (
          arith,
          i,
          n,
          value_of-zero (lookup k ms),
          zero_+ℤ (total d ms ks),
          total-absent ks (subst (λ x. All (λ i. x < i) ks) i a.0),
        )
    | inr e ↦ ground (
      arith,
      e,
      h,
      total-cons ks a.1,
      move_first (value_of (position j d) (lookup j ms)) (value_of v (lookup k ms)) (total d ms ks),
    )
  ]

total-marked :
    (d : Dict ℕ ℤ) (ms : Dict ℕ ℕ) (ks : List ℕ)
    → IsDict d
    → Ascending ks
    → ((j : ℕ) → contains j d ≡ true → member j ks ≡ true)
    → total d ms ks ≡ marked d ms
unfolding marked lookup
total-marked [] ms ks i a c = total-empty ms ks
total-marked ((k, v) ∷ d) ms ks i a c =
    total-cons k v d ms ks a (c k (ground arith)) i.0
    ∙ ap (λ x. value_of v (lookup k ms) +ℤ x)
        (total-marked d ms ks i.1 a λ j h. c j (ground (arith, h)))

value_at_ok : (v : ℤ) (m : Option ℕ) {x : ℤ} → value_at v m ≡ ok x → x ≡ value_of v m
unfolding value_at marked_value
value_at_ok v none h = ground arith
value_at_ok v (some m) h = checked_int64_ok (mark_value v m) h

value_at-Quiet : (v : ℤ) (m : Option ℕ) → Quiet (value_at v m)
unfolding value_at marked_value
value_at-Quiet v none = ground arith
value_at-Quiet v (some m) = checked_int64-Quiet (mark_value v m)

module _ (s : AccountingLedger) where
  rows_value_err :
      (k : ℕ) (ks : List ℕ) (e : SimulationError)
      → value_at (position k s.positions) (lookup k s.marks) ≡ err e
      → symbol_rows s (k ∷ ks) ≡ err e
  unfolding symbol_rows
  rows_value_err k ks e h = ground (arith, h)

  rows_rest_err :
      (k : ℕ) (ks : List ℕ) (v : ℤ) (e : SimulationError)
      → value_at (position k s.positions) (lookup k s.marks) ≡ ok v
      → symbol_rows s ks ≡ err e
      → symbol_rows s (k ∷ ks) ≡ err e
  unfolding symbol_rows
  rows_rest_err k ks v e h i = ground (arith, h, i)

  abbrev row_of : ℕ → ℤ → SymbolAccounting
  row_of k v = record {
    symbol_id = k;
    inventory = position k s.positions;
    mark_mid2 = lookup k s.marks;
    marked_value_microusd = v;
    max_abs_inventory = max_abs_of k s.max_abs_positions;
  }

  rows_both :
      (k : ℕ) (ks : List ℕ) (v : ℤ) (r : List SymbolAccounting × List ℤ)
      → value_at (position k s.positions) (lookup k s.marks) ≡ ok v
      → symbol_rows s ks ≡ ok r
      → symbol_rows s (k ∷ ks) ≡ ok (row_of k v ∷ r.0, v ∷ r.1)
  unfolding symbol_rows
  rows_both k ks v r h i = ground (arith, h, i)

  -- The rows raise no invariant error, and their values are those of the keys.
  abbrev Rows : List ℕ → Result (List SymbolAccounting × List ℤ) → Type 0
  Rows ks (err e) = Quiet {A = ℤ} (err e)
  Rows ks (ok r) = (t : ℤ) → sum_from t r.1 ≡ t +ℤ total s.positions s.marks ks

  symbol_rows-Rows : (ks : List ℕ) → Rows ks (symbol_rows s ks)
  symbol_rows-Rows [] = unfold symbol_rows in λ t. sym (add_zero t)
  symbol_rows-Rows (k ∷ ks) =
      elim (Result-cases (value_at (position k s.positions) (lookup k s.marks))) [
        | inr (e, h) ↦
            rw (rows_value_err k ks e h) (subst Quiet h (value_at-Quiet _ (lookup k s.marks)))
        | inl (v, h) ↦ elim (Result-cases (symbol_rows s ks)) [
          | inr (e, i) ↦ rw (rows_rest_err k ks v e h i) (subst (Rows ks) i (symbol_rows-Rows ks))
          | inl (r, i) ↦ rw (rows_both k ks v r h i) λ t.
              subst (Rows ks) i (symbol_rows-Rows ks) (t +ℤ v)
              ∙ ap (λ x. t +ℤ x +ℤ total s.positions s.marks ks)
                  (value_at_ok (position k s.positions) (lookup k s.marks) h)
              ∙ +ℤ_assoc t _ (total s.positions s.marks ks)
        ]
      ]

  -- The error of the snapshot is that of the rows or of the reconciliation.
  snapshot_rows-Quiet :
      (e : SimulationError)
      → symbol_rows s (symbol_keys s.positions s.marks) ≡ err e
      → Quiet {A = ℤ} (err e)
      → Quiet (snapshot s).0
  unfolding snapshot
  snapshot_rows-Quiet e h q = rw h q

  snapshot_sums-Quiet :
      (r : List SymbolAccounting × List ℤ)
      → symbol_rows s (symbol_keys s.positions s.marks) ≡ ok r
      → Quiet (reconcile r.1 s.totals)
      → Quiet (snapshot s).0
  unfolding snapshot
  snapshot_sums-Quiet r h q = rw h (elim (Result-cases (reconcile r.1 s.totals)) [
    | inl (sums, e) ↦ rw e tt
    | inr (x, e) ↦ rw e (subst Quiet e q)
  ])

  -- A snapshot of a ledger whose accounts agree never raises an invariant error.
  pub snapshot-Quiet : IsBalancedLedger s → Quiet (snapshot s).0
  snapshot-Quiet b =
      let ks = symbol_keys s.positions s.marks in
      elim (Result-cases (symbol_rows s ks)) [
        | inr (e, h) ↦ snapshot_rows-Quiet e h (subst (Rows ks) h (symbol_rows-Rows ks))
        | inl (r, h) ↦ snapshot_sums-Quiet r h (
            reconcile-Quiet r.1 s.totals (
              ap (λ x. s.totals.gross_passive_cash +ℤ s.totals.gross_liquidation_cash +ℤ x)
                (subst (Rows ks) h (symbol_rows-Rows ks) (pos 0)
                  ∙ zero_+ℤ (total s.positions s.marks ks)
                  ∙ total-marked s.positions s.marks ks b.dict
                      (unfold symbol_keys in
                        add_keys-Ascending s.positions _ (add_keys-Ascending s.marks [] tt))
                      (λ j c. unfold symbol_keys in add_keys-member j s.positions _ c))
              ∙ b.agrees))
      ]
