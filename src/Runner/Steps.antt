-- ===== src/Runner/Steps.antt =====
-- runner.py: each step of the loop keeps the day open.
use itch_lab.Base.{
  ◌≡◌, refl, sym, subst, ℕ, true, Option, none, some, List, [], ◌∷◌, All, arith, Option-cases, inl,
  inr, is_some, leb, nat_eq, ◌&&◌, if◌then◌else◌,
}
use itch_lab.Base.Dict.{lookup}
use itch_lab.MarketEvents.{MarketEvent, same_number}
use itch_lab.QueueModel.Method.{
  ◌>>◌, pure, modify, returns, Ends-bind, Ends-gets, Ends-pure, Ends-modify, Ends-lifted, Ends-if,
  Ends-or_key_error,
}
use itch_lab.QueueModel.Model.{QueueEventResult}
use itch_lab.QueueModel.Process.{process_market_event, complete_market_timestamp}
use itch_lab.QueueModel.Invariant.Process.{
  process_market_event-Keeps, complete_market_timestamp-Keeps,
}
use itch_lab.Accounting.{AccountingLedger}
use itch_lab.Accounting.FillOutcome.{IsBalancedLedger}
use itch_lab.Accounting.Snapshot.{snapshot, inventory}
use itch_lab.Accounting.Session.{snapshot_state}
use itch_lab.Accounting.Limits.{IsLimited}
use itch_lab.Runner.{EventRow, IsKeyed, SimulationSymbol, EquityRow, Strategy, Setup, Day, key_eq}
use itch_lab.Runner.Quotes.{refresh_quotes}
use itch_lab.Runner.Loop.{
  reordered, rescheduled, decide_quotes, maybe_decide, with_equity, equity_row, next_timestamp,
  complete_last, follow_event, with_symbol, process_row, process_rows,
}
use itch_lab.Runner.Kept.{
  Covers-insert, Covers-found, IsOpen, Kept, IsOpen-IsStopped, on_ledger-Kept, on_state-Kept,
  on_queue-Kept, found-Kept, on_strategy-Kept,
}
use itch_lab.Runner.Marking.{mark_snapshot-Kept, settle_fills-Kept}
use itch_lab.Runner.Requests.{refresh_quotes-IsValid}

inventory_state : (k : ℕ) (l : AccountingLedger) → (inventory k l).1 ≡ l
unfolding inventory
inventory_state k l = ground arith

module _ {S : Type 0} (strategy : Strategy S) (setup : Setup) where
  module _ (e : MarketEvent) (known : is_some (lookup e.symbol_id setup.symbols) ≡ true) where
    rescheduled-IsOpen :
        (next : ℕ) (d : Day S)
        → IsOpen setup d
        → IsOpen setup (rescheduled strategy setup e (reordered strategy setup next d))
    rescheduled-IsOpen next d o = record {
      queue = o.queue;
      ledger = o.ledger;
      limited = o.limited;
      strategies = o.strategies;
      decisions = Covers-insert setup.symbols d.next_decision e.symbol_id _ o.decisions;
      timelines = o.timelines;
    }

    decide_quotes-Kept :
        (d : Day S) → IsOpen setup d → Kept setup (decide_quotes strategy setup e d)
    unfolding decide_quotes
    decide_quotes-Kept d o =
        on_ledger-Kept setup d o (inventory e.symbol_id) _
          (subst IsBalancedLedger (sym (inventory_state e.symbol_id d.ledger)) o.ledger)
          (subst IsLimited (sym (inventory_state e.symbol_id d.ledger)) o.limited)
          λ held o1.
            Ends-bind _ _ _ (on_strategy-Kept setup _ o1 strategy e.symbol_id _ known) λ c u h.
              Ends-gets _ _ u (
                on_state-Kept setup u h
                  (refresh_quotes c e.timestamp_ns e.message_index u.next_order_id)
                  (λ next.
                    modify (λ x. rescheduled strategy setup e (reordered strategy setup next x)))
                  (refresh_quotes-IsValid c e.timestamp_ns e.message_index u.next_order_id _
                    h.queue.sound.machine)
                  λ next k. unfold modify in returns (rescheduled-IsOpen next _ k))

    maybe_decide-Kept :
        (raw : EventRow) (mark : Option ℕ) (d : Day S)
        → IsOpen setup d
        → Kept setup (maybe_decide strategy setup raw e mark d)
    unfolding maybe_decide
    maybe_decide-Kept raw mark d o =
        Ends-if (raw.in_session && is_some mark) _ _ d
          (λ _.
            let (due, found) =
              Covers-found setup.symbols d.next_decision e.symbol_id o.decisions known in
            found-Kept setup d o (λ x. lookup e.symbol_id x.next_decision)
              (λ t. if leb t e.timestamp_ns then decide_quotes strategy setup e else pure tt) found
              (Ends-if (leb due e.timestamp_ns) _ _ d (λ _. decide_quotes-Kept d o)
                λ _. Ends-pure tt d o))
          λ _. Ends-pure tt d o

    next_timestamp-Kept :
        (rest : List EventRow) (d : Day S)
        → All IsKeyed rest
        → IsOpen setup d
        → Kept setup (next_timestamp strategy setup rest d)
    unfolding next_timestamp
    next_timestamp-Kept [] d a o = Ends-pure none d o
    next_timestamp-Kept (r ∷ rest) d a o = elim (Option-cases r.timestamp_ns) [
      | inl n ↦ absurd (ground (arith, a.0.1, n))
      | inr (t, f) ↦
          Ends-or_key_error r.timestamp_ns (λ t. pure (some t)) d f (Ends-pure (some t) d o)
    ]

    last_timestamp-Kept :
        (rest : List EventRow) (d : Day S)
        → All IsKeyed rest
        → IsOpen setup d
        → Kept setup (complete_last strategy setup e rest d)
    unfolding complete_last
    last_timestamp-Kept rest d a o = Ends-bind _ _ d (next_timestamp-Kept rest d a o) λ next u h.
        Ends-if (same_number next (some e.timestamp_ns)) _ _ u (λ _. Ends-pure tt u h)
          λ _.
            Ends-bind _ _ u
              (on_queue-Kept setup u h (complete_market_timestamp e.timestamp_ns)
                (complete_market_timestamp-Keeps u.queue h.queue e.timestamp_ns))
              λ _ v k. Ends-pure tt v k

  with_equity-IsOpen :
      (row : EquityRow) (d : Day S)
      → IsOpen setup d
      → IsOpen setup (with_equity strategy setup row d)
  with_equity-IsOpen row d o = record {
    queue = o.queue;
    ledger = o.ledger;
    limited = o.limited;
    strategies = o.strategies;
    decisions = o.decisions;
    timelines = o.timelines;
  }

  follow_event-Kept :
      (raw : EventRow) (rest : List EventRow) (r : QueueEventResult)
      → is_some (lookup r.event.symbol_id setup.symbols) ≡ true
      → (d : Day S) → All IsKeyed rest
      → IsOpen setup d
      → Kept setup (follow_event strategy setup raw rest r d)
  unfolding follow_event
  follow_event-Kept raw rest r known d keyed o =
      Ends-bind _ _ d (mark_snapshot-Kept strategy setup r.event known d o) λ mark u h.
        Ends-bind _ _ u (settle_fills-Kept strategy setup r.event known mark r.fills u h)
          λ mark' v k. Ends-bind _ _ v (maybe_decide-Kept r.event known raw mark' v k) λ _ w l.
            on_ledger-Kept setup w l snapshot
              (λ a.
                modify (
                  with_equity strategy setup
                    (equity_row (some r.event.message_index) r.event.timestamp_ns a))
                >> complete_last strategy setup r.event rest)
              (subst IsBalancedLedger (sym (snapshot_state w.ledger)) l.ledger)
              (subst IsLimited (sym (snapshot_state w.ledger)) l.limited)
              λ a l1.
                Ends-modify _ _ _
                  (last_timestamp-Kept r.event known rest _ keyed (with_equity-IsOpen _ _ l1))

  with_symbol-Kept :
      (raw : EventRow) (rest : List EventRow) (r : QueueEventResult) (o : Option SimulationSymbol)
      → o ≡ lookup r.event.symbol_id setup.symbols
      → (d : Day S) → All IsKeyed rest
      → IsOpen setup d
      → Kept setup (with_symbol strategy setup raw rest r o d)
  with_symbol-Kept raw rest r none e d keyed o =
      Ends-lifted _ d (IsOpen-IsStopped setup d o) λ _ _. o
  with_symbol-Kept raw rest r (some x) e d keyed o =
      follow_event-Kept raw rest r (rw (← e) refl) d keyed o

  process_row-Kept :
      (raw : EventRow) (rest : List EventRow) (d : Day S)
      → All IsKeyed rest
      → IsOpen setup d
      → Kept setup (process_row strategy setup raw rest d)
  unfolding process_row
  process_row-Kept raw rest d keyed o =
      Ends-bind _ _ d
        (on_queue-Kept setup d o (process_market_event raw.source)
          (process_market_event-Keeps raw.source d.queue o.queue))
        λ r u h. with_symbol-Kept raw rest r (lookup r.event.symbol_id setup.symbols) refl u keyed h

  -- The loop over events whose rows have the keys that it reads keeps an open day open, or raises
  -- and leaves it stopped, and never fails with a KeyError: the queue model is sound, the accounts of
  -- the ledger agree, and every inventory is within the limit; while the day is open the queue model
  -- is also within its budget of anomalies, and each symbol has its strategy, its next decision and
  -- its timeline.
  pub process_rows-Kept :
      (rows : List EventRow) (d : Day S)
      → All IsKeyed rows
      → IsOpen setup d
      → Kept setup (process_rows strategy setup rows d)
  unfolding process_rows
  process_rows-Kept [] d keyed o = Ends-pure tt d o
  process_rows-Kept (raw ∷ rest) d keyed o =
      Ends-bind _ _ d (process_row-Kept raw rest d keyed.1 o)
        λ _ u h. process_rows-Kept rest u keyed.1 h
