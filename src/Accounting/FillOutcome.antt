-- ===== src/Accounting/FillOutcome.antt =====
-- accounting.py: the outcomes of `record_queue_fill`.
use Prim.Native.Nat.{max}
use itch_lab.Base.{
  ◌≡◌, ◌≢◌, refl, ◌∙◌, ap, ◌⊎◌, inl, inr, ℕ, ◌+◌, true, false, some, [], ◌∷◌, ◌++◌, arith, nat_eq,
  Bool-cases,
}
use itch_lab.Base.Result.{Result, ok, err}
use itch_lab.Order.{SimulatedOrder}
use itch_lab.QueueModel.{QueueFill}
use itch_lab.Base.Int.{ℤ, pos, neg, abs, ◌+ℤ◌, ◌*ℤ◌}
use itch_lab.Base.Dict.{lookup, lookup-insert}
use itch_lab.Accounting.{AccountingLedger, AccountedFill, validate_mark_mid2, empty_ledger, valid_ℤ}
use itch_lab.Accounting.Plan.{FillPlan, plan_fill}
use itch_lab.Accounting.Marks.{position}
use itch_lab.Accounting.Amounts.{IsBalanced}
use itch_lab.Accounting.Balance.{marked-IsDict, marked-Covered}
use itch_lab.Accounting.Snapshot.{max_abs_of}
use itch_lab.Accounting.Identity.{
  position-default, position-insert, marked, Covered-insert, contains-insert_self,
}
use itch_lab.Base.Dict.{insert-IsDict}
use itch_lab.Accounting.Invariant.{plan_fill_ok, plan_fill-Quiet}
use itch_lab.Accounting.Fills.{record_queue_fill, filled, accounted}
use itch_lab.Accounting.Reconcile.{Quiet, is_invariant}
use itch_lab.Errors.{SimulationError}
use itch_lab.Accounting.FillBranches.{
  Outcome, Still-cases, queue_fill-Still, sequence-Still, mark-Quiet, record_settled,
  record_invalid, record_unmarked, record_unsequenced, record_unplanned, record_planned,
}

-- The accounts of the ledger are well formed and agree.
abbrev pub IsBalancedLedger : AccountingLedger → Type 0
IsBalancedLedger s = IsBalanced s.positions s.marks s.totals

pub empty_ledger-IsBalanced : (rate : ℤ) (limit : ℕ) → IsBalancedLedger (empty_ledger rate limit)
unfolding marked
empty_ledger-IsBalanced rate limit = record { dict = tt; covered = tt; agrees = refl }

-- The inventory of a symbol is within the limit of the ledger.
abbrev pub WithinLimit : ℕ → AccountingLedger → Type 0
WithinLimit k s =
    valid_ℤ (position k s.positions) (neg (pos s.inventory_limit)) (pos s.inventory_limit) ≡ true

-- The record of a fill.
pub record IsRecordOf (f : QueueFill) (o : SimulatedOrder) (s : AccountingLedger)
    (x : AccountedFill) : Type 0 where
  pub id : x.fill_id ≡ s.next_fill_id
  pub order : x.simulated_order_id ≡ f.simulated_order_id
  pub message : x.market_message_index ≡ f.market_message_index
  pub time : x.timestamp_ns ≡ f.timestamp_ns
  pub price : x.price4 ≡ f.price4
  pub quantity : x.quantity ≡ f.quantity
  pub inventory : x.inventory_after ≡ position o.symbol_id s.positions +ℤ o.side *ℤ pos f.quantity

-- The fill was accounted: its record is returned and stored last, its key is kept, the symbol's
-- position is that of the record and no other position changed, the counters and maxima moved, the
-- symbol has the mark, the accounts agree, and the inventory is within the limit.
pub record Accounted (f : QueueFill) (o : SimulatedOrder) (mark : ℕ) (s : AccountingLedger)
    (r : Result AccountedFill × AccountingLedger) : Type 0 where
  pub fill : AccountedFill
  pub returned : r.0 ≡ ok fill
  pub told : IsRecordOf f o s fill
  pub stored : r.1.fills ≡ s.fills ++ fill ∷ []
  pub keys :
      r.1.fill_keys ≡ (f.simulated_order_id, f.market_message_index, f.match_number) ∷ s.fill_keys
  pub next : r.1.next_fill_id ≡ s.next_fill_id + 1
  pub revision : r.1.revision ≡ s.revision + 1
  pub held : position o.symbol_id r.1.positions ≡ fill.inventory_after
  pub others : (k : ℕ) → o.symbol_id ≢ k → position k r.1.positions ≡ position k s.positions
  pub greatest :
      max_abs_of o.symbol_id r.1.max_abs_positions
      ≡ max (max_abs_of o.symbol_id s.max_abs_positions) (abs fill.inventory_after)
  pub quantity :
      max_abs_of f.simulated_order_id r.1.accounted_quantity_by_order
      ≡ max_abs_of f.simulated_order_id s.accounted_quantity_by_order + f.quantity
  pub marked : lookup o.symbol_id r.1.marks ≡ some mark
  pub balanced : IsBalancedLedger r.1
  pub within : WithinLimit o.symbol_id r.1
  pub limit : r.1.inventory_limit ≡ s.inventory_limit

module _ (f : QueueFill) (o : SimulatedOrder) (mark : ℕ) (s : AccountingLedger) (p : FillPlan)
    (b : IsBalancedLedger s) (e : plan_fill s f o mark ≡ ok p) where
  filled-IsBalanced : IsBalancedLedger (filled f o p s)
  filled-IsBalanced =
      let q = plan_fill_ok s f o mark b.dict b.covered e in
      let a = q.marked_at in
      record {
        dict = insert-IsDict o.symbol_id p.inventory_after p.positions (
            rw q.positions (
              marked-IsDict o.symbol_id mark s.positions s.marks s.totals.inventory_mark_to_market a
                b.dict));
        covered =
            Covered-insert o.symbol_id p.inventory_after p.positions p.marks
              (inr (rw (q.marks, a.marks) (contains-insert_self o.symbol_id mark s.marks)))
              (rw (q.positions, q.marks)
                (marked-Covered o.symbol_id mark s.positions s.marks
                  s.totals.inventory_mark_to_market a b.covered));
        agrees = q.agrees b.agrees;
      }

  filled-WithinLimit : WithinLimit o.symbol_id (filled f o p s)
  filled-WithinLimit =
      let q = plan_fill_ok s f o mark b.dict b.covered e in
      ground (arith, q.within, lookup-insert o.symbol_id o.symbol_id p.inventory_after p.positions)

  filled-Accounted : Accounted f o mark s (ok (accounted f p s), filled f o p s)
  filled-Accounted =
      let q = plan_fill_ok s f o mark b.dict b.covered e in
      let c = q.positions ∙ q.marked_at.positions in
      record {
        fill = accounted f p s;
        returned = refl;
        told = record {
          id = refl;
          order = refl;
          message = refl;
          time = refl;
          price = refl;
          quantity = refl;
          inventory =
              q.after
              ∙ ap (λ d. position o.symbol_id d +ℤ o.side *ℤ pos f.quantity) q.marked_at.positions
              ∙ ap (λ x. x +ℤ o.side *ℤ pos f.quantity)
                  (position-default o.symbol_id o.symbol_id s.positions);
        };
        stored = refl;
        keys = refl;
        next = refl;
        revision = refl;
        held =
            ground (arith, position-insert o.symbol_id o.symbol_id p.inventory_after p.positions);
        others = λ k n.
            ground (arith, n, position-insert o.symbol_id k p.inventory_after p.positions)
            ∙ ap (position k) c
            ∙ position-default o.symbol_id k s.positions;
        greatest = ground (
          arith,
          lookup-insert o.symbol_id o.symbol_id
              (max (max_abs_of o.symbol_id s.max_abs_positions) (abs p.inventory_after))
              s.max_abs_positions,
        );
        quantity = ground (
          arith,
          lookup-insert f.simulated_order_id f.simulated_order_id
              (max_abs_of f.simulated_order_id s.accounted_quantity_by_order + f.quantity)
              s.accounted_quantity_by_order,
        );
        marked =
            rw (q.marks, q.marked_at.marks)
              (ground (arith, lookup-insert o.symbol_id o.symbol_id mark s.marks));
        balanced = filled-IsBalanced;
        within = filled-WithinLimit;
        limit = refl;
      }

Result-cases :
    {A : Type 0} (r : Result A)
    → Quiet r
    → ((a : A) × (r ≡ ok a)) ⊎ ((e : SimulationError) × (r ≡ err e) × (is_invariant e.code ≡ false))
Result-cases (ok a) q = inl (a, refl)
Result-cases (err e) q = inr (e, refl, q)

marked_ok : (mk : ℕ) {m : ℕ} → validate_mark_mid2 mk ≡ ok m → m ≡ mk
unfolding validate_mark_mid2
marked_ok mk h = ground arith

module _ (f : QueueFill) (o : SimulatedOrder) (mk : ℕ) (s : AccountingLedger) where
  refused :
      (e : SimulationError)
      → is_invariant e.code ≡ false
      → record_queue_fill f o mk s ≡ (err e, s)
      → Outcome s (Accounted f o mk s) (record_queue_fill f o mk s)
  refused e q h = inl (rw h refl, (rw h refl, rw h q))

  planned-Outcome :
      (b : IsBalancedLedger s)
      → Quiet (plan_fill s f o mk)
      → ((e : SimulationError)
          → plan_fill s f o mk ≡ err e
          → record_queue_fill f o mk s ≡ (err e, s))
      → ((p : FillPlan)
          → plan_fill s f o mk ≡ ok p
          → record_queue_fill f o mk s ≡ (ok (accounted f p s), filled f o p s))
      → Outcome s (Accounted f o mk s) (record_queue_fill f o mk s)
  planned-Outcome b q bad good = elim (Result-cases (plan_fill s f o mk) q) [
    | inl (p, h) ↦ inr (rw (good p h) (filled-Accounted f o mk s p b h))
    | inr (e, h, k) ↦ refused e k (bad e h)
  ]

  -- Recording a fill on a ledger whose accounts agree either raises, and then the ledger is as it
  -- was and the error is no invariant error, or it accounts the fill. Then a record of the fill is
  -- returned and stored last, under the next fill's number; the fill's key is kept, and the number and
  -- the revision go up by one; the symbol's position moves by the signed quantity, as the record says,
  -- and no other moves; the order's accounted quantity and the symbol's greatest inventory follow; the
  -- symbol has the mark; the accounts agree again and the inventory is within the limit.
  pub record_queue_fill-Outcome :
      IsBalancedLedger s → Outcome s (Accounted f o mk s) (record_queue_fill f o mk s)
  record_queue_fill-Outcome b = elim (Bool-cases s.settled) [
    | inl c ↦ inl (record_settled f o mk s c)
    | inr c ↦ elim (Still-cases s _ (queue_fill-Still f o s)) [
      | inr (e, h, k) ↦ refused e k (record_invalid f o mk s c e h)
      | inl (u, hv) ↦ elim (Result-cases _ (mark-Quiet mk)) [
        | inr (e, h, k) ↦ refused e k (record_unmarked f o mk s c u hv e h)
        | inl (m, hm) ↦ elim (Still-cases s _ (sequence-Still f o s)) [
          | inr (e, h, k) ↦ refused e k (record_unsequenced f o mk s c u hv m hm e h)
          | inl (v, hs) ↦
              let hk = marked_ok mk hm in
              planned-Outcome b (plan_fill-Quiet s f o mk b.dict b.covered b.agrees)
                (λ e h. record_unplanned f o mk s c u hv m hm v hs e (rw hk h))
                (λ p h. record_planned f o mk s c u hv m hm v hs p (rw hk h))
        ]
      ]
    ]
  ]
