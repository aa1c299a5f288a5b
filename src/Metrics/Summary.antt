-- ===== src/Metrics/Summary.antt =====
-- metrics.py: the accounting metrics of a ledger.
use itch_lab.Base.{◌≡◌, refl, ◌∙◌, sym, ap, ◌⊎◌, inl, inr, subst, not, none, List, [], ◌∷◌, arith}
use itch_lab.Base.Int.{ℤ, pos, ◌+ℤ◌, ◌-ℤ◌, neg, eqb_ℤ, eqb_ℤ_iff}
use itch_lab.Base.Result.{Result, ok, err, ◌>>=◌, ◌>>◌, raise_if, >>=-eq-ok, Result-cases}
use itch_lab.Errors.{ErrorCode, SimulationError}
use itch_lab.Order.{fail}
use itch_lab.Accounting.{
  Totals, SymbolAccounting, AccountingLedger, checked_int64, checked_sum_from, checked_sum_int64,
}
use itch_lab.Accounting.Marks.{Sums, reconcile}
use itch_lab.Accounting.Snapshot.{AccountingSnapshot, snapshot, symbol_rows, symbol_keys}
use itch_lab.Accounting.FillOutcome.{IsBalancedLedger}
use itch_lab.Accounting.Rows.{snapshot-Quiet}
use itch_lab.Accounting.Reconcile.{Quiet, checked_int64_ok, sum_from, checked_sum_from_ok}
use itch_lab.Metrics.{
  AccountingMetrics, checked_add, metrics_of, decomposition_from, snapshot_metrics, ledger_metrics,
}

bind_cong :
    {A B : Type 0} (r : Result A) (f g : A → Result B)
    → ((a : A) → f a ≡ g a)
    → (r >>= f) ≡ (r >>= g)
bind_cong (ok a) f g h = h a
bind_cong (err e) f g h = refl

decomposition_from-checked_sum_from :
    (t : ℤ) (vs : List ℤ) → decomposition_from t vs ≡ checked_sum_from t vs
unfolding decomposition_from checked_sum_from checked_add
decomposition_from-checked_sum_from t [] = refl
decomposition_from-checked_sum_from t (v ∷ vs) =
    bind_cong (checked_int64 (t +ℤ v)) _ _ λ u. decomposition_from-checked_sum_from u vs

-- The checks that a reconciliation has passed.
record Passed (t : Totals) (s : Sums) : Type 0 where
  pub gross : ℤ
  pub contribution : ℤ
  pub gross_ok : checked_int64 (t.gross_passive_cash +ℤ t.gross_liquidation_cash) ≡ ok gross
  pub cash_ok : checked_int64 (gross -ℤ s.signed_fees) ≡ ok s.cash
  pub contribution_ok : checked_int64 (neg s.signed_fees) ≡ ok contribution
  pub pnl_ok : checked_int64 (s.cash +ℤ s.marked_inventory_value) ≡ ok s.marked_pnl
  pub fees_ok : checked_int64 (t.maker_fees +ℤ t.taker_fees) ≡ ok s.signed_fees
  pub decomposition_ok :
      checked_sum_int64 (
        t.passive_spread_capture ∷ t.inventory_mark_to_market ∷ t.terminal_liquidation_slippage
        ∷ contribution ∷ [])
      ≡ ok s.marked_pnl

compared :
    (x y : ℤ) {A : Type 0} (a b : A)
    → (raise_if (not (eqb_ℤ x y)) (fail ErrorCode.invariant none none) >> ok a) ≡ ok b
    → (x ≡ y) × (a ≡ b)
compared x y a b h = ground (arith, eqb_ℤ_iff x y)

reconcile_ok : (vs : List ℤ) (t : Totals) (s : Sums) → reconcile vs t ≡ ok s → Passed t s
unfolding reconcile
reconcile_ok vs t s h =
    let (marked, e, f) = >>=-eq-ok (checked_sum_int64 vs) _ h in
    let (fees, e1, f1) = >>=-eq-ok (checked_int64 (t.maker_fees +ℤ t.taker_fees)) _ f in
    let (gross, e2, f2) =
      >>=-eq-ok (checked_int64 (t.gross_passive_cash +ℤ t.gross_liquidation_cash)) _ f1 in
    let (cash, e3, f3) = >>=-eq-ok (checked_int64 (gross -ℤ fees)) _ f2 in
    let (pnl, e4, f4) = >>=-eq-ok (checked_int64 (cash +ℤ marked)) _ f3 in
    let (nf, e5, f5) = >>=-eq-ok (checked_int64 (neg fees)) _ f4 in
    let (dec, e6, f6) =
      >>=-eq-ok
        (checked_sum_int64 (
          t.passive_spread_capture ∷ t.inventory_mark_to_market ∷ t.terminal_liquidation_slippage
          ∷ nf ∷ []))
        _ f5 in
    let (q, r) = compared pnl dec _ s f6 in
    subst (Passed t) r (record {
      gross = gross;
      contribution = nf;
      gross_ok = e2;
      cash_ok = e3;
      contribution_ok = e5;
      pnl_ok = e4;
      fees_ok = e1;
      decomposition_ok = e6 ∙ ap ok (sym q);
    })

-- The totals and the sums of the metrics, in every way that the day's result adds up.
pub record IsReconciled (t : Totals) (m : AccountingMetrics) : Type 0 where
  pub gross : m.gross_cash_microusd ≡ t.gross_passive_cash +ℤ t.gross_liquidation_cash
  pub fees : m.signed_fee_microusd ≡ m.maker_fee_microusd +ℤ m.taker_fee_microusd
  pub contribution : m.fee_contribution_microusd ≡ neg m.signed_fee_microusd
  pub cash : m.cash_microusd ≡ m.gross_cash_microusd -ℤ m.signed_fee_microusd
  pub profit : m.marked_pnl_microusd ≡ m.cash_microusd +ℤ m.marked_inventory_value_microusd
  pub decomposed :
      m.marked_pnl_microusd
      ≡ sum_from (pos 0) (
          m.passive_spread_capture_microusd ∷ m.inventory_mark_to_market_microusd
          ∷ m.terminal_liquidation_slippage_microusd ∷ m.fee_contribution_microusd ∷ [])

module _ (a : AccountingSnapshot) (p : Passed a.totals a.sums) where
  snapshot_metrics_ok : snapshot_metrics a ≡ ok (metrics_of a p.gross p.contribution)
  unfolding snapshot_metrics
  snapshot_metrics_ok =
      rw
        (
          p.gross_ok,
          p.contribution_ok,
          decomposition_from-checked_sum_from (pos 0) (
              a.totals.passive_spread_capture ∷ a.totals.inventory_mark_to_market
              ∷ a.totals.terminal_liquidation_slippage ∷ p.contribution ∷ []),
          p.decomposition_ok,
          p.cash_ok,
        )
        (ground
          (arith, eqb_ℤ_iff a.sums.cash a.sums.cash, eqb_ℤ_iff a.sums.marked_pnl a.sums.marked_pnl))

  metrics-IsReconciled : IsReconciled a.totals (metrics_of a p.gross p.contribution)
  metrics-IsReconciled = record {
    gross = checked_int64_ok _ p.gross_ok;
    fees = checked_int64_ok _ p.fees_ok;
    contribution = checked_int64_ok _ p.contribution_ok;
    cash = checked_int64_ok _ p.cash_ok;
    profit = checked_int64_ok _ p.pnl_ok;
    decomposed = checked_sum_from_ok (pos 0) _ p.decomposition_ok;
  }

-- A snapshot that is returned has passed the reconciliation of the ledger's totals.
module _ (s : AccountingLedger) where
  snapshot_rows_err :
      (e : SimulationError)
      → symbol_rows s (symbol_keys s.positions s.marks) ≡ err e
      → (snapshot s).0 ≡ err e
  unfolding snapshot
  snapshot_rows_err e h = ground (arith, h)

  snapshot-reconcile :
      (rows : List SymbolAccounting × List ℤ)
      → symbol_rows s (symbol_keys s.positions s.marks) ≡ ok rows
      → ((e : SimulationError) × ((snapshot s).0 ≡ err e))
        ⊎ ((a : AccountingSnapshot) × ((snapshot s).0 ≡ ok a)
            × (reconcile rows.1 s.totals ≡ ok a.sums)
            × (a.totals ≡ s.totals))
  unfolding snapshot
  snapshot-reconcile rows h = rw h (elim (Result-cases (reconcile rows.1 s.totals)) [
    | inl (sums, e) ↦ rw e (inr (_, refl, refl, refl))
    | inr (x, e) ↦ rw e (inl (x, refl))
  ])

  snapshot-Passed :
      ((e : SimulationError) × ((snapshot s).0 ≡ err e))
      ⊎ ((a : AccountingSnapshot) × ((snapshot s).0 ≡ ok a)
          × (a.totals ≡ s.totals)
          × Passed a.totals a.sums)
  snapshot-Passed = elim (Result-cases (symbol_rows s (symbol_keys s.positions s.marks))) [
    | inr (e, h) ↦ inl (e, snapshot_rows_err e h)
    | inl (rows, h) ↦ elim (snapshot-reconcile rows h) [
      | inl r ↦ inl r
      | inr (a, i, q, t) ↦
          inr
            (a, i, t, subst (λ x. Passed x a.sums) (sym t) (reconcile_ok rows.1 s.totals a.sums q))
    ]
  ]

  ledger_metrics_err : (e : SimulationError) → (snapshot s).0 ≡ err e → (ledger_metrics s).0 ≡ err e
  unfolding ledger_metrics
  ledger_metrics_err e h = ground (arith, h)

  ledger_metrics_ok :
      (a : AccountingSnapshot) → (snapshot s).0 ≡ ok a → (ledger_metrics s).0 ≡ snapshot_metrics a
  unfolding ledger_metrics
  ledger_metrics_ok a h = ground (arith, h)

-- The metrics of a ledger raise nothing but what its snapshot raises, and what they return
-- reconciles: cash is gross cash without the fees, and the profit is cash with the marked value
-- and also the sum of spread, mark-to-market, slippage and the contribution of the fees.
pub ledger_metrics-snapshot :
    (s : AccountingLedger)
    → ((e : SimulationError) × ((snapshot s).0 ≡ err e) × ((ledger_metrics s).0 ≡ err e))
      ⊎ ((m : AccountingMetrics) × ((ledger_metrics s).0 ≡ ok m) × IsReconciled s.totals m)
ledger_metrics-snapshot s = elim (snapshot-Passed s) [
  | inl (e, h) ↦ inl (e, h, ledger_metrics_err s e h)
  | inr (a, h, t, p) ↦ inr (
    metrics_of a p.gross p.contribution,
    ledger_metrics_ok s a h ∙ snapshot_metrics_ok a p,
    subst (λ x. IsReconciled x (metrics_of a p.gross p.contribution)) t (metrics-IsReconciled a p),
  )
]

-- The snapshot and the metrics of a ledger whose accounts agree never raise an invariant error: the
-- rows add up to the value of the positions, and the two ways to the profit agree.
pub ledger_metrics-Quiet :
    (s : AccountingLedger) → IsBalancedLedger s → Quiet (snapshot s).0 × Quiet (ledger_metrics s).0
ledger_metrics-Quiet s b = elim (ledger_metrics-snapshot s) [
  | inl (e, h, i) ↦ (snapshot-Quiet s b, rw i (subst Quiet h (snapshot-Quiet s b)))
  | inr (m, i, _) ↦ (snapshot-Quiet s b, rw i tt)
]
