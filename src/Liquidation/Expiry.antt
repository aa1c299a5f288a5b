-- ===== src/Liquidation/Expiry.antt =====
-- liquidation.py: the expirations of the open orders of a valid machine all succeed.
use itch_lab.Base.{
  ◌≡◌, refl, sym, ap, subst, ◌∙◌, ◌≤◌, inl, inr, ℕ, true, false, none, some, List, [], ◌∷◌, arith,
  nat_eq, ◌==◌, eqb, All, Bool-cases,
}
use itch_lab.Base.Dict.{Dict, lookup, insert, lookup-insert}
use itch_lab.Base.Result.{ok}
use itch_lab.Order.{OrderState, SimulatedOrder, terminal, max_timestamp_ns}
use itch_lab.StateMachine.{
  OrderStateMachine, OrderTransition, TransitionCause, stored, transition, slot_eq,
}
use itch_lab.StateMachine.Methods.{expire, ended}
use itch_lab.StateMachine.Calls.{Call, call}
use itch_lab.StateMachine.Calls.Invariant.{IsValid, call-IsValid}
use itch_lab.StateMachine.Totality.{expire_total}
use itch_lab.Liquidation.{check_open}
use itch_lab.Liquidation.Settle.{expire_all}
use itch_lab.Liquidation.Open.{Entry, OpenEntries, values, found-All}

-- A valid machine with the open orders that are still to expire, all requested by the time.
pub record Expiring (t : ℕ) (l : List Entry) (s : OrderStateMachine) : Type 0 where
  pub valid : IsValid s
  pub entries : OpenEntries s.orders l
  pub requested : All (λ e. e.1.requested_timestamp_ns ≤ t) l

-- Every order of the machine is finished.
abbrev pub IsClosed : OrderStateMachine → Type 0
IsClosed s = All (λ e. terminal e.1 ≡ true) s.orders

All-finished :
    (d : Dict ℕ SimulatedOrder) (l : List Entry)
    → OpenEntries d []
    → All (λ e. lookup e.0 d ≡ some e.1) l
    → All (λ e. terminal e.1 ≡ true) l
All-finished d [] h f = tt
All-finished d ((k, o) ∷ l) h f = elim (Bool-cases (terminal o)) [
  | inl e ↦ (e, All-finished d l h f.1)
  | inr e ↦ absurd (h.all_live k o f.0 e)
]

pub check_open_ok :
    (t : ℕ) (l : List Entry)
    → check_open t (values l) ≡ ok tt
    → All (λ e. e.1.requested_timestamp_ns ≤ t) l
unfolding check_open
check_open_ok t [] h = tt
check_open_ok t ((k, o) ∷ l) h = ground (arith, check_open_ok t l)

found-insert :
    (k : ℕ) (a : SimulatedOrder) (d : Dict ℕ SimulatedOrder) (l : List Entry)
    → All (λ f. eqb f.0 k ≡ false) l
    → All (λ e. lookup e.0 d ≡ some e.1) l
    → All (λ e. lookup e.0 (insert k a d) ≡ some e.1) l
found-insert k a d [] n h = tt
found-insert k a d ((j, o) ∷ l) n h =
    (ground (arith, lookup-insert k j a d, n.0, h.0), found-insert k a d l n.1 h.1)

-- A finished order in the place of an open one.
entries-insert :
    (k : ℕ) (o a : SimulatedOrder) (d : Dict ℕ SimulatedOrder) (l : List Entry)
    → terminal a ≡ true
    → OpenEntries d ((k, o) ∷ l)
    → OpenEntries (insert k a d) l
entries-insert k o a d l done h = record {
  found = found-insert k a d l h.distinct.0 h.found.1;
  live = h.live.1;
  distinct = h.distinct.1;
  all_live = λ id p e t. elim (Bool-cases (k == id)) [
    | inl same ↦ absurd (ground (arith, lookup-insert k id a d, e, t, done))
    | inr other ↦ elim (h.all_live id p (ground (arith, lookup-insert k id a d, e)) t) [
      | inl x ↦ absurd (ground (arith, x.0, other))
      | inr x ↦ x
    ]
  ];
}

module _ (t : ℕ) (day : t ≤ max_timestamp_ns) where
  abbrev after : SimulatedOrder → OrderStateMachine → OrderStateMachine
  after o s = stored (ended OrderState.expired t o) s

  expire_next :
      (k : ℕ) (o : SimulatedOrder) (l : List Entry) (s : OrderStateMachine)
      → Expiring t ((k, o) ∷ l) s
      → (expire o.simulated_order_id t s ≡ (
        ok (transition o (ended OrderState.expired t o) TransitionCause.expired t none none none),
        after o s,
      ))
        × Expiring t l (after o s)
  expire_next k o l s h =
      let found = h.entries.found.0 in
      let keyed : o.simulated_order_id ≡ k = h.valid.book.keyed k o found in
      let e = expire_total s k o h.valid.book found h.entries.live.0 t h.requested.0 day in
      let v : IsValid (call (Call.expires k t) s).1 = call-IsValid (Call.expires k t) s h.valid in
      (
        ap (λ i. expire i t s) keyed ∙ e,
        record {
          valid = unfold call in subst (λ r. IsValid r.1) e v;
          entries =
              subst (λ i. OpenEntries (insert i (ended OrderState.expired t o) s.orders) l)
                (sym keyed)
                (entries-insert k o (ended OrderState.expired t o) s.orders l refl h.entries);
          requested = h.requested.1;
        },
      )

  expire_all_cons :
      (o : SimulatedOrder) (os : List SimulatedOrder) (s s1 s2 : OrderStateMachine)
      (a : OrderTransition) (ts : List OrderTransition)
      → expire o.simulated_order_id t s ≡ (ok a, s1)
      → expire_all t os s1 ≡ (ok ts, s2)
      → expire_all t (o ∷ os) s ≡ (ok (a ∷ ts), s2)
  unfolding expire_all
  expire_all_cons o os s s1 s2 a ts e f = ground arith

  -- What the loop does: it returns, and no open order is left.
  pub expire_all_ok :
      (l : List Entry) (s : OrderStateMachine)
      → Expiring t l s
      → (ts : List OrderTransition) × (s' : OrderStateMachine) × (expire_all t (values l) s
          ≡ (ok ts, s'))
        × IsValid s'
        × IsClosed s'
  expire_all_ok [] s h = (
    [],
    s,
    unfold expire_all in refl,
    h.valid,
    All-finished s.orders s.orders h.entries
        (found-All s.orders s.orders h.valid.dict (λ _ _ e. e)),
  )
  expire_all_ok ((k, o) ∷ l) s h =
      let (e, g) = expire_next k o l s h in
      let (ts, s', f, v, c) = expire_all_ok l (after o s) g in
      (_ ∷ ts, s', expire_all_cons o (values l) s (after o s) s' _ ts e f, v, c)
