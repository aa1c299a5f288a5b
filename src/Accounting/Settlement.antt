-- ===== src/Accounting/Settlement.antt =====
-- accounting.py: the terminal plan closes every position, and a plan just prepared can be committed.
use itch_lab.Base.{
  ◌≡◌, refl, sym, ap, subst, ℕ, ◌+◌, Bool, true, false, ◌&&◌, not, none, some, ◌++◌, List, [], ◌∷◌,
  length, arith, nat_eq,
}
use itch_lab.Base.Int.{ℤ, pos}
use itch_lab.Base.Dict.{Dict, lookup, insert}
use itch_lab.Base.Result.{Result, ok, raise_if, >>=-eq-ok}
use itch_lab.Accounting.{
  AccountingLedger, LiquidationAccounting, TerminalTrade, PreparedTerminalAccounting,
  trade_cash_delta, trade_fee, mark_relative_value, checked_int64, validate_fee_rate,
}
use itch_lab.Accounting.Amounts.{ok-inj, guard_ok}
use itch_lab.Accounting.Identity.{set_default-IsDict}
use itch_lab.Base.Dict.{IsDict, insert-IsDict}
use itch_lab.Accounting.Marks.{
  Marked, position, mark_change, apply_mark_to_copies, validate_reconciliation,
}
use itch_lab.Accounting.Liquidation.{
  Closing, member, mark_trades, close_trade, close_trades, validate_terminal_trade, plan_terminal,
  opening, closing_totals,
}
use itch_lab.Accounting.Flat.{
  Only, IsFlat, symbols_of, nonzero-Only, Only-weaken, Only-close, Only-none, sorted_items-IsFlat,
  mark_trades_seen,
}
use itch_lab.Accounting.Terminal.{
  prepare_terminal_accounting, commit_terminal_accounting, settled_by,
}

apply_mark-IsDict :
    (k m : ℕ) (d : Dict ℕ ℤ) (ms : Dict ℕ ℕ) (total : ℤ) {r : Marked}
    → apply_mark_to_copies k m d ms total ≡ ok r
    → IsDict d
    → IsDict r.positions
unfolding apply_mark_to_copies
apply_mark-IsDict k m d ms total h u =
    let (t, e, f) = >>=-eq-ok (mark_change (position k d) m (lookup k ms) total) _ h in
    subst (λ (r : Marked). IsDict r.positions) (ok-inj f) (set_default-IsDict k (position k d) d u)

mark_trades-IsDict :
    (ts : List TerminalTrade) (seen : List ℕ) (m : Marked) {out : List ℕ × Marked}
    → mark_trades ts seen m ≡ ok out
    → IsDict m.positions
    → IsDict out.1.positions
unfolding mark_trades
mark_trades-IsDict [] seen m h u =
    subst (λ (r : List ℕ × Marked). IsDict r.1.positions) (ok-inj h) u
mark_trades-IsDict (t ∷ ts) seen m h u =
    let (_, _, h1) = >>=-eq-ok (validate_terminal_trade t) _ h in
    let (_, _, h2) = >>=-eq-ok (raise_if (member t.symbol_id seen) _) _ h1 in
    let (m', e3, h3) =
      >>=-eq-ok
        (apply_mark_to_copies t.symbol_id t.mark_mid2 m.positions m.marks
          m.inventory_mark_to_market)
        _ h2 in
    mark_trades-IsDict ts (t.symbol_id ∷ seen) m' h3 (
      apply_mark-IsDict t.symbol_id t.mark_mid2 m.positions m.marks m.inventory_mark_to_market e3 u)

close_trade_ok :
    (n : ℕ) (rate : ℤ) (t : TerminalTrade) (c : Closing) {c' : Closing}
    → close_trade n rate t c ≡ ok c'
    → c'.positions ≡ insert t.symbol_id (pos 0) c.positions
unfolding close_trade
close_trade_ok n rate t c h =
    let (_, h1) = guard_ok _ _ _ h in
    let (_, _, h2) = >>=-eq-ok (trade_cash_delta t.side t.price4 t.quantity) _ h1 in
    let (_, _, h3) = >>=-eq-ok (trade_fee rate t.quantity) _ h2 in
    let (_, _, h4) = >>=-eq-ok (mark_relative_value t.side t.price4 t.quantity t.mark_mid2) _ h3 in
    let (_, _, h5) = >>=-eq-ok (checked_int64 _) _ h4 in
    let (_, _, h6) = >>=-eq-ok (checked_int64 _) _ h5 in
    let (_, _, h7) = >>=-eq-ok (checked_int64 _) _ h6 in
    let (_, _, h8) = >>=-eq-ok (checked_int64 _) _ h7 in
    ap (λ (x : Closing). x.positions) (sym (ok-inj h8))

-- The second loop closes the symbols of its trades.
close_trades-IsFlat :
    (n : ℕ) (rate : ℤ) (ts : List TerminalTrade) (c : Closing) {c' : Closing}
    → close_trades n rate ts c ≡ ok c'
    → IsDict c.positions
    → Only (symbols_of ts) c.positions
    → IsFlat c'.positions
unfolding close_trades
close_trades-IsFlat n rate [] c h u o =
    subst (λ (x : Closing). IsFlat x.positions) (ok-inj h) (Only-none c.positions o)
close_trades-IsFlat n rate (t ∷ ts) c h u o =
    let (c1, e, h1) = >>=-eq-ok (close_trade n rate t c) _ h in
    let p = close_trade_ok n rate t c e in
    close_trades-IsFlat n rate ts c1 h1 (rw p (insert-IsDict t.symbol_id (pos 0) c.positions u))
      (rw p (Only-close t.symbol_id (symbols_of ts) c.positions u o))

-- What a terminal plan of the ledger is.
record PlanFor (s : AccountingLedger) (p : PreparedTerminalAccounting) : Type 0 where
  pub flat : IsFlat p.positions
  pub revision : p.revision ≡ s.revision
  pub identity : p.identity ≡ s.plans_prepared
  pub count : p.liquidation_count ≡ length s.liquidations + length p.records

-- The commit of a plan on the ledger settled it.
pub record Settles (s : AccountingLedger) (p : PreparedTerminalAccounting)
    (r : Result (List LiquidationAccounting) × AccountingLedger) : Type 0 where
  pub returned : r.0 ≡ ok p.records
  pub settled : r.1.settled ≡ true
  pub flat : IsFlat r.1.positions
  pub positions : r.1.positions ≡ p.positions
  pub marks : r.1.marks ≡ p.marks
  pub liquidations : r.1.liquidations ≡ s.liquidations ++ p.records
  pub quantity : r.1.liquidation_quantity ≡ p.liquidation_quantity
  pub count : p.liquidation_count ≡ length s.liquidations + length p.records
  pub revision : r.1.revision ≡ s.revision + 1
  pub cleared : r.1.prepared_terminal_plan ≡ none
  pub totals : r.1.totals ≡ (record {
    gross_passive_cash = s.totals.gross_passive_cash;
    gross_liquidation_cash = p.gross_liquidation_cash_microusd;
    maker_fees = s.totals.maker_fees;
    taker_fees = p.taker_fee_microusd;
    passive_spread_capture = s.totals.passive_spread_capture;
    inventory_mark_to_market = p.inventory_mark_to_market_microusd;
    terminal_liquidation_slippage = p.terminal_liquidation_slippage_microusd;
  })
  pub fills : r.1.fills ≡ s.fills

module _ (s : AccountingLedger) (ts : List TerminalTrade) (rate : ℤ) where
  abbrev copies : Marked
  copies = record {
    positions = s.positions;
    marks = s.marks;
    inventory_mark_to_market = s.totals.inventory_mark_to_market;
  }

  seen-symbols :
      {out : List ℕ × Marked}
      → mark_trades ts [] copies ≡ ok out
      → (k : ℕ) → member k out.0 ≡ true
      → member k (symbols_of ts) ≡ true
  seen-symbols h k i = ground (arith, mark_trades_seen ts [] copies h k i)

  both_ways : (a b : Bool) → not (a && b) ≡ false → b ≡ true
  both_ways a b h = ground arith

  plan_terminal_ok :
      {p : PreparedTerminalAccounting}
      → IsDict s.positions
      → plan_terminal s ts rate ≡ ok p
      → PlanFor s p
  unfolding plan_terminal
  plan_terminal_ok u h =
      let (r, e1, h1) = >>=-eq-ok (validate_fee_rate rate) _ h in
      let (out, e2, h2) = >>=-eq-ok (mark_trades ts [] copies) _ h1 in
      let (w, h3) = guard_ok _ _ _ h2 in
      let (c, e4, h4) =
        >>=-eq-ok (close_trades (length s.liquidations) r ts (opening s out.1.positions)) _ h3 in
      let (_, e5, h5) =
        >>=-eq-ok
          (validate_reconciliation c.positions out.1.marks
            (closing_totals c out.1.inventory_mark_to_market s.totals))
          _ h4 in
      let dict = mark_trades-IsDict ts [] copies e2 u in
      let only =
        Only-weaken out.0 (symbols_of ts) out.1.positions (seen-symbols e2)
          (nonzero-Only out.1.positions out.0 (both_ways _ _ w)) in
      subst (PlanFor s) (ok-inj h5) (record {
        flat = sorted_items-IsFlat c.positions (
            close_trades-IsFlat (length s.liquidations) r ts (opening s out.1.positions) e4 dict
              only);
        revision = refl;
        identity = refl;
        count = refl;
      })

  pub prepare_ok :
      {p : PreparedTerminalAccounting} {s1 : AccountingLedger}
      → prepare_terminal_accounting ts rate s ≡ (ok p, s1)
      → (s.settled ≡ false)
        × (plan_terminal s ts rate ≡ ok p)
        × (s1
            ≡ (record s { prepared_terminal_plan = some p; plans_prepared = s.plans_prepared + 1 }))
  unfolding prepare_terminal_accounting
  prepare_ok h = ground arith

  commit_ok :
      (p : PreparedTerminalAccounting)
      → s.settled ≡ false
      → PlanFor s p
      → commit_terminal_accounting p
          (record s { prepared_terminal_plan = some p; plans_prepared = s.plans_prepared + 1 })
        ≡ (
          ok p.records,
          settled_by p
              (record s { prepared_terminal_plan = some p; plans_prepared = s.plans_prepared + 1 }),
        )
  unfolding commit_terminal_accounting
  commit_ok p open_ f = ground (arith, f.revision, f.identity, f.count)

  pub prepare_commit_state :
      {p : PreparedTerminalAccounting} {s1 : AccountingLedger}
      → IsDict s.positions
      → prepare_terminal_accounting ts rate s ≡ (ok p, s1)
      → (commit_terminal_accounting p s1 ≡ (ok p.records, settled_by p s1))
        × IsFlat (settled_by p s1).positions
  prepare_commit_state {p} u h =
      let (o, e, q) = prepare_ok h in
      let f = plan_terminal_ok u e in (rw q (commit_ok p o f), f.flat)

  -- A terminal plan that was prepared, on a ledger in which no symbol stands twice, can be committed
  -- at once. The commit succeeds and returns the plan's records. It settles the ledger, which then has
  -- the records behind its earlier liquidations, the plan's positions, all of them zero, its marks and
  -- its totals, the old passive cash, spread and maker fees, and no prepared plan.
  pub prepare_commit :
      {p : PreparedTerminalAccounting} {s1 : AccountingLedger}
      → IsDict s.positions
      → prepare_terminal_accounting ts rate s ≡ (ok p, s1)
      → Settles s p (commit_terminal_accounting p s1)
  prepare_commit {p} u h =
      let (_, _, q) = prepare_ok h in
      let (c, flat) = prepare_commit_state u h in
      rw (c, q)
        (record {
          returned = refl;
          settled = refl;
          flat = flat;
          positions = refl;
          marks = refl;
          liquidations = refl;
          quantity = refl;
          count = (plan_terminal_ok u (prepare_ok h).1).count;
          revision = refl;
          cleared = refl;
          totals = refl;
          fills = refl;
        })
