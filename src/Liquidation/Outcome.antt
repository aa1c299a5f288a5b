-- ===== src/Liquidation/Outcome.antt =====
-- liquidation.py: the settlement is refused as a whole, or it closes the session.
use itch_lab.Base.{
  ◌≡◌, refl, sym, ap, ◌∙◌, ◌⊎◌, inl, inr, ℕ, true, false, List, [], arith, nat_eq, Bool-cases,
}
use itch_lab.Base.Int.{ℤ}
use itch_lab.Base.Result.{Result, ok, err, is_ok}
use itch_lab.Base.Dict.{Dict}
use itch_lab.Base.Action.{Raises}
use itch_lab.Order.{valid_int, max_timestamp_ns}
use itch_lab.StateMachine.{OrderStateMachine}
use itch_lab.StateMachine.Calls.Invariant.{IsValid}
use itch_lab.Accounting.{AccountingLedger, TerminalTrade, PreparedTerminalAccounting}
use itch_lab.Base.Dict.{IsDict}
use itch_lab.Accounting.Flat.{IsFlat}
use itch_lab.Accounting.Settlement.{prepare_commit_state, prepare_ok}
use itch_lab.Accounting.Session.{Result-total, snapshot_state}
use itch_lab.Accounting.Snapshot.{AccountingSnapshot, snapshot}
use itch_lab.Accounting.Terminal.{prepare_terminal_accounting, settled_by}
use itch_lab.Liquidation.{
  TerminalQuote, TerminalSettlement, add_quotes, terminal_trades, check_open,
}
use itch_lab.Liquidation.Settle.{Session, expire_all, settle_session_end}
use itch_lab.Liquidation.Open.{open_entries, open_orders_lem, open_entries-OpenEntries}
use itch_lab.Liquidation.Expiry.{IsClosed, check_open_ok, expire_all_ok}
use itch_lab.Liquidation.Branches.{
  guards, prepared, opens, guards_fail, guards_day, quotes_fail, view_fail, trades_fail, plan_fail,
  check_fail, prepared_ok, settle_refused, settle_ran,
}

-- The ledgers differ at most in the plan that is prepared.
abbrev pub SameBooks : AccountingLedger → AccountingLedger → Type 0
SameBooks l k = k ≡ (record l {
  prepared_terminal_plan = k.prepared_terminal_plan;
  plans_prepared = k.plans_prepared;
})

-- The session is as it was: no order changed, and of the ledger at most the prepared plan.
abbrev pub IsRefused :
    OrderStateMachine → AccountingLedger → Result TerminalSettlement × Session → Type 0
IsRefused s l r = (is_ok r.0 ≡ false) × (r.1.0 ≡ s) × SameBooks l r.1.1

-- No order is open and no position is held, and the ledger is settled.
abbrev pub IsSettled : Session → Type 0
IsSettled s = IsValid s.0 × IsClosed s.0 × (s.1.settled ≡ true) × IsFlat s.1.positions

returns :
    {S A : Type 0} (r : Result A × S) → ((a : A) × (s : S) × (r ≡ (ok a, s))) ⊎ (is_ok r.0 ≡ false)
returns (ok a, s) = inl (a, s, refl)
returns (err e, s) = inr refl

prepare_raised :
    (ts : List TerminalTrade) (fee : ℤ) (l : AccountingLedger)
    → is_ok (prepare_terminal_accounting ts fee l).0 ≡ false
    → Raises l (prepare_terminal_accounting ts fee l)
unfolding prepare_terminal_accounting
prepare_raised ts fee l h = ground arith

module _ (t : ℕ) (qs : List TerminalQuote) (fee : ℤ) (s : OrderStateMachine)
    (l : AccountingLedger) where
  abbrev settled : Result TerminalSettlement × Session
  settled = settle_session_end t qs fee (s, l)

  raised : Raises (s, l) (prepared t qs fee s l) → IsRefused s l settled
  raised h =
      let (e, q) = settle_refused t qs fee s l h.0 in
      let st : settled.1 ≡ (s, l) = q ∙ h.1 in (e, ap (λ (x : Session). x.0) st, rw st refl)

  unchecked :
      (p : PreparedTerminalAccounting) (l1 : AccountingLedger)
      → SameBooks l l1
      → (is_ok (prepared t qs fee s l).0 ≡ false) × ((prepared t qs fee s l).1 ≡ (s, l1))
      → IsRefused s l settled
  unchecked p l1 same h =
      let (e, q) = settle_refused t qs fee s l h.0 in
      let st : settled.1 ≡ (s, l1) = q ∙ h.1 in (e, ap (λ (x : Session). x.0) st, rw st same)

  module _ (valid : IsValid s) (symbols : IsDict l.positions) where
    closes :
        (ts : List TerminalTrade) (p : PreparedTerminalAccounting) (l1 : AccountingLedger)
        → valid_int t 0 max_timestamp_ns ≡ true
        → prepare_terminal_accounting ts fee l ≡ (ok p, l1)
        → check_open t (opens t qs fee s l) ≡ ok tt
        → prepared t qs fee s l ≡ (ok (p, opens t qs fee s l), (s, l1))
        → IsSettled settled.1
    closes ts p l1 day hp hc h =
        let o = open_orders_lem s in
        let requested = check_open_ok t (open_entries s) (ap (check_open t) (sym o) ∙ hc) in
        let (es, s2, he, v2, c2) =
          expire_all_ok t (ground (arith, day)) (open_entries s) s (record {
            valid = valid;
            entries = open_entries-OpenEntries s valid.dict;
            requested = requested;
          }) in
        let (hm, flat) = prepare_commit_state l ts fee symbols hp in
        let st =
          settle_ran t qs fee s l p l1 es s2 p.records (settled_by p l1) h
            (ap (λ os. expire_all t os s) o ∙ he) hm in
        rw st (v2, c2, refl, flat)

    with_trades :
        guards t qs fee s l ≡ true
        → (d : Dict ℕ TerminalQuote) (hd : add_quotes t qs [] ≡ ok d)
        → (v : AccountingSnapshot) (hv : snapshot l ≡ (ok v, l))
        → IsRefused s l settled ⊎ IsSettled settled.1
    with_trades g d hd v hv = elim (Result-total (terminal_trades t d v.symbols)) [
      | inr h ↦ inl (raised (trades_fail t qs fee s l g d hd v hv h))
      | inl (ts, ht) ↦ elim (returns (prepare_terminal_accounting ts fee l)) [
        | inr h ↦
            inl (raised (plan_fail t qs fee s l g d hd v hv ts ht (prepare_raised ts fee l h)))
        | inl (p, l1, hp) ↦
            let same : SameBooks l l1 = rw (prepare_ok l ts fee hp).2 refl in
            elim (Result-total (check_open t (opens t qs fee s l))) [
              | inr h ↦
                  inl (unchecked p l1 same (check_fail t qs fee s l g d hd v hv ts ht p l1 hp h))
              | inl (u, hc) ↦ inr (
                  closes ts p l1 (guards_day t qs fee s l g) hp hc
                    (prepared_ok t qs fee s l g d hd v hv ts ht p l1 hp hc))
            ]
      ]
    ]

    -- The settlement of a valid machine and a ledger in which no symbol stands twice either raises,
    -- with every order as it was and the ledger too but for a prepared plan, or it leaves a valid
    -- machine without an open order and a settled ledger without an open position.
    pub settle_outcome : IsRefused s l settled ⊎ IsSettled settled.1
    settle_outcome = elim (Bool-cases (guards t qs fee s l)) [
      | inr g ↦ inl (raised (guards_fail t qs fee s l g))
      | inl g ↦ elim (Result-total (add_quotes t qs [])) [
        | inr h ↦ inl (raised (quotes_fail t qs fee s l g h))
        | inl (d, hd) ↦ elim (Result-total (snapshot l).0) [
          | inr h ↦ inl (raised (view_fail t qs fee s l g d hd h))
          | inl (v, h) ↦
              let hv : snapshot l ≡ (ok v, l) = ground (arith, h, snapshot_state l) in
              with_trades g d hd v hv
        ]
      ]
    ]
