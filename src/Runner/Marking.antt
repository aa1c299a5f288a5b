-- ===== src/Runner/Marking.antt =====
-- runner.py: the marks and the fills of an event keep the day open.
use itch_lab.Base.{
  ◌≡◌, sym, subst, ℕ, ◌+◌, true, Option, none, some, List, [], ◌∷◌, is_some, ltb, nat_eq,
  Option-cases, inl, inr,
}
use itch_lab.Base.Dict.{lookup}
use itch_lab.StateMachine.{order}
use itch_lab.StateMachine.Calls.Invariant as Machine
use itch_lab.MarketEvents.{MarketEvent}
use itch_lab.QueueModel.{QueueFill}
use itch_lab.QueueModel.Method.{
  modify, returns, Ends-bind, Ends-gets, Ends-pure, Ends-lifted, Ends-if,
}
use itch_lab.QueueModel.Invariant.{order_state}
use itch_lab.Accounting.Fills.{record_queue_fill}
use itch_lab.Accounting.Snapshot.{update_mark}
use itch_lab.Accounting.Session.{update_mark-IsBalanced, fill-IsBalanced}
use itch_lab.Accounting.Limits.{update_mark-IsLimited, fill-IsLimited}
use itch_lab.Liquidation.{mid2}
use itch_lab.Runner.{SnapshotRow, Strategy, Setup, Day, key_eq}
use itch_lab.Runner.Fills.{account_fill, account_fills, appended}
use itch_lab.Runner.Loop.{
  quoted, observe, in_window, mark_prices, mark_row, mark_snapshot, fill_mark, settle_fills,
}
use itch_lab.Runner.Kept.{
  Covers-insert, Covers-found, IsOpen, Kept, IsOpen-IsStopped, on_ledger-Kept, on_state-Kept,
  found-Kept, on_strategy-Kept,
}

module _ {S : Type 0} (strategy : Strategy S) (setup : Setup) where
  -- A change of the variables that the invariant does not read.
  appended-IsOpen : (row : _) (d : Day S) → IsOpen setup d → IsOpen setup (appended row d)
  appended-IsOpen row d o = record {
    queue = o.queue;
    ledger = o.ledger;
    limited = o.limited;
    strategies = o.strategies;
    decisions = o.decisions;
    timelines = o.timelines;
  }

  account_fill-Kept :
      (f : QueueFill) (mark : ℕ) (d : Day S) → IsOpen setup d → Kept setup (account_fill f mark d)
  unfolding account_fill modify
  account_fill-Kept f mark d o =
      on_state-Kept setup d o (order f.simulated_order_id) _
        (subst Machine.IsValid (sym (order_state f.simulated_order_id _)) o.queue.sound.machine)
        λ x o1.
          on_ledger-Kept setup _ o1 (record_queue_fill f x mark) _
            (fill-IsBalanced f x mark d.ledger o.ledger)
            (fill-IsLimited f x mark d.ledger o.ledger o.limited)
            λ a o2. returns (appended-IsOpen _ _ o2)

  account_fills-Kept :
      (fs : List QueueFill) (mark : ℕ) (d : Day S)
      → IsOpen setup d
      → Kept setup (account_fills fs mark d)
  unfolding account_fills
  account_fills-Kept [] mark d o = Ends-pure tt d o
  account_fills-Kept (f ∷ fs) mark d o =
      Ends-bind _ _ d (account_fill-Kept f mark d o) λ _ u h. account_fills-Kept fs mark u h

  module _ (e : MarketEvent) (known : is_some (lookup e.symbol_id setup.symbols) ≡ true) where
    quoted-IsOpen :
        (bid ask : ℕ) (timeline : List (ℕ × ℕ)) (d : Day S)
        → IsOpen setup d
        → IsOpen setup (quoted strategy setup e bid ask timeline d)
    quoted-IsOpen bid ask timeline d o = record {
      queue = o.queue;
      ledger = o.ledger;
      limited = o.limited;
      strategies = o.strategies;
      decisions = o.decisions;
      timelines = Covers-insert setup.symbols d.quote_timeline e.symbol_id _ o.timelines;
    }

    observe-Kept :
        (bid ask : ℕ) (d : Day S) → IsOpen setup d → Kept setup (observe strategy setup e bid ask d)
    unfolding observe
    observe-Kept bid ask d o =
        Ends-bind _ _ d (on_strategy-Kept setup d o strategy e.symbol_id _ known) λ _ u h.
          let (timeline, found) =
            Covers-found setup.symbols u.quote_timeline e.symbol_id h.timelines known in
          found-Kept setup u h (λ x. lookup e.symbol_id x.quote_timeline)
            (λ t. modify (quoted strategy setup e bid ask t)) found
            (unfold modify in returns (quoted-IsOpen bid ask timeline u h))

    mark_prices-Kept :
        (bid ask : Option ℕ) (d : Day S)
        → IsOpen setup d
        → Kept setup (mark_prices strategy setup e bid ask d)
    unfolding mark_prices
    mark_prices-Kept (some bid) (some ask) d o =
        Ends-if (ltb ask bid) _ _ d (λ _. Ends-lifted _ d (IsOpen-IsStopped setup d o) λ _ _. o)
          λ _.
            on_ledger-Kept setup d o (update_mark e.symbol_id (bid + ask)) _
              (update_mark-IsBalanced e.symbol_id (bid + ask) d.ledger o.ledger)
              (update_mark-IsLimited e.symbol_id (bid + ask) d.ledger o.ledger o.limited)
              λ _ o1.
                Ends-bind _ _ _
                  (Ends-if (in_window strategy setup e) _ _ _ (λ _. observe-Kept bid ask _ o1)
                    λ _. Ends-pure tt _ o1)
                  λ _ u h. Ends-pure _ u h
    mark_prices-Kept (some bid) none d o = Ends-pure none d o
    mark_prices-Kept none ask d o = Ends-pure none d o

    mark_row-Kept :
        (r : Option SnapshotRow) (d : Day S)
        → IsOpen setup d
        → Kept setup (mark_row strategy setup e r d)
    mark_row-Kept none d o = Ends-pure none d o
    mark_row-Kept (some row) d o = mark_prices-Kept row.bid_price4_1 row.ask_price4_1 d o

    pub mark_snapshot-Kept :
        (d : Day S) → IsOpen setup d → Kept setup (mark_snapshot strategy setup e d)
    unfolding mark_snapshot
    mark_snapshot-Kept d o = mark_row-Kept _ d o

    fill_mark-Kept :
        (mark : Option ℕ) (d : Day S)
        → IsOpen setup d
        → Kept setup (fill_mark strategy setup e mark d)
    unfolding fill_mark
    fill_mark-Kept (some mark) d o = Ends-pure mark d o
    fill_mark-Kept none d o =
        Ends-gets _ _ d (elim (Option-cases (lookup e.symbol_id d.last_quotes)) [
          | inl n ↦ rw n (Ends-lifted _ d (IsOpen-IsStopped setup d o) λ _ _. o)
          | inr (last, f) ↦ rw f (Ends-pure (mid2 last) d o)
        ])

    pub settle_fills-Kept :
        (mark : Option ℕ) (fs : List QueueFill) (d : Day S)
        → IsOpen setup d
        → Kept setup (settle_fills strategy setup e mark fs d)
    unfolding settle_fills
    settle_fills-Kept mark [] d o = Ends-pure mark d o
    settle_fills-Kept mark (f ∷ fs) d o =
        Ends-bind _ _ d (fill_mark-Kept mark d o) λ m u h.
          Ends-bind _ _ u (account_fills-Kept (f ∷ fs) m u h) λ _ v k. Ends-pure (some m) v k
