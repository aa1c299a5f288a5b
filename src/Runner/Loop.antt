-- ===== src/Runner/Loop.antt =====
-- runner.py: the loop of `run_scenario` over the events of a day, and the end of the day.
use Prim.Native.Nat.{◌/◌}
use itch_lab.Base.{
  ℕ, ◌+◌, ◌-◌, ◌*◌, ◌&&◌, Bool, true, Option, none, some, List, [], ◌∷◌, ◌++◌, leb, ltb, is_some,
  map, nat_eq, if◌then◌else◌,
}
use itch_lab.Base.Dict.{lookup, insert}
use itch_lab.Base.Result.{Result, err}
use itch_lab.Errors.{ErrorCode}
use itch_lab.Order.{fail}
use itch_lab.StateMachine.{OrderStateMachine}
use itch_lab.MarketEvents.{MarketEvent, same_number}
use itch_lab.QueueModel.{QueueFill}
use itch_lab.QueueModel.Method.{
  Method, ◌>>=◌, ◌>>◌, pure, gets, modify, lift, or_key_error, at_part,
}
use itch_lab.QueueModel.Model.{QueueEventResult, put_machine}
use itch_lab.QueueModel.Process.{process_market_event, complete_market_timestamp}
use itch_lab.Accounting.{AccountingLedger}
use itch_lab.Accounting.Snapshot.{AccountingSnapshot, snapshot, update_mark, inventory}
use itch_lab.Liquidation.{TerminalQuote, TerminalSettlement, mid2}
use itch_lab.Liquidation.Settle.{settle_session_end}
use itch_lab.Runner.{
  EventRow, SnapshotRow, SimulationSymbol, Strategy, EquityRow, Setup, Day, on_queue, on_state,
  on_ledger, put_strategy, key_eq,
}
use itch_lab.Runner.Quotes.{refresh_quotes}
use itch_lab.Runner.Fills.{account_fills}

-- `row["message_index"]` of a row that has it.
abbrev pub index_of : EventRow → ℕ
index_of r = elim r.message_index [ none ↦ 0 | some i ↦ i ]

abbrev pub all_indexed : List EventRow → Bool
all_indexed [] = true
all_indexed (r ∷ rows) = is_some r.message_index && all_indexed rows

unfoldable pub insert_row : EventRow → List EventRow → List EventRow
insert_row r [] = r ∷ []
insert_row r (q ∷ rows) =
    let rest = insert_row r rows in if leb (index_of r) (index_of q) then r ∷ q ∷ rows else q ∷ rest

unfoldable pub inserted_rows : List EventRow → List EventRow
inserted_rows [] = []
inserted_rows (r ∷ rows) = insert_row r (inserted_rows rows)

-- `sorted(day.events, key=...)`, which is stable; `none` is the KeyError of a row without the key.
unfoldable pub sorted_rows : List EventRow → Option (List EventRow)
sorted_rows rows = if all_indexed rows then some (inserted_rows rows) else none

-- `(elapsed // interval + 1) * interval`, of a positive interval. A decision comes only after the
-- start of the session, so `elapsed` is not negative.
abbrev pub next_multiple : ℕ → ℕ → ℕ
next_multiple interval elapsed = (elapsed / interval + 1) * interval

abbrev pub quote_of : MarketEvent → ℕ → ℕ → TerminalQuote
quote_of event bid ask = record {
  symbol_id = event.symbol_id;
  timestamp_ns = event.timestamp_ns;
  best_bid_price4 = bid;
  best_ask_price4 = ask;
}

abbrev pub equity_row : Option ℕ → ℕ → AccountingSnapshot → EquityRow
equity_row message_index timestamp_ns a = record {
  message_index = message_index;
  timestamp_ns = timestamp_ns;
  marked_pnl_microusd = a.sums.marked_pnl;
  cash_microusd = a.sums.cash;
  marked_inventory_value_microusd = a.sums.marked_inventory_value;
}

module _ {S : Type 0} (strategy : Strategy S) (setup : Setup) where
  -- A call of the strategy of a symbol.
  unfoldable pub on_strategy : {A : Type 0} → ℕ → (S → Result A × S) → Method (Day S) A
  on_strategy symbol_id m = do
    t ← (do o ← gets (λ d. lookup symbol_id d.strategies); or_key_error o)
    modify (put_strategy symbol_id (m t).1)
    lift (m t).0

  -- What the runner notes of a quote in the session.
  abbrev pub quoted : MarketEvent → ℕ → ℕ → List (ℕ × ℕ) → Day S → Day S
  quoted event bid ask timeline d = record d {
    last_quotes = insert event.symbol_id (quote_of event bid ask) d.last_quotes;
    quote_timeline =
        insert event.symbol_id (timeline ++ (event.timestamp_ns, bid + ask) ∷ []) d.quote_timeline;
  }

  -- `strategies[...].observe_quote(...)`, and the quote noted.
  unfoldable pub observe : MarketEvent → ℕ → ℕ → Method (Day S) (Unit {0})
  observe event bid ask = do
    on_strategy event.symbol_id
        (strategy.observe_quote event.message_index event.timestamp_ns bid ask)
    timeline ← (do o ← gets (λ d. lookup event.symbol_id d.quote_timeline); or_key_error o)
    modify (quoted event bid ask timeline)

  -- `day.session_start_ns <= event.timestamp_ns < day.session_end_ns`
  abbrev pub in_window : MarketEvent → Bool
  in_window event =
      leb setup.session_start_ns event.timestamp_ns && ltb event.timestamp_ns setup.session_end_ns

  -- The mark of the event's snapshot, where both sides have a price.
  unfoldable pub mark_prices : MarketEvent → Option ℕ → Option ℕ → Method (Day S) (Option ℕ)
  mark_prices event (some bid) (some ask) =
      if ltb ask bid then lift (err (fail ErrorCode.book_crossed none none)) else (do
        _ ← on_ledger (update_mark event.symbol_id (bid + ask))
        (if in_window event then observe event bid ask else pure tt)
        pure (some (bid + ask)))
  mark_prices event _ _ = pure none

  abbrev pub mark_row : MarketEvent → Option SnapshotRow → Method (Day S) (Option ℕ)
  mark_row event none = pure none
  mark_row event (some row) = mark_prices event row.bid_price4_1 row.ask_price4_1

  unfoldable pub mark_snapshot : MarketEvent → Method (Day S) (Option ℕ)
  mark_snapshot event =
      mark_row event (lookup (event.symbol_id, event.message_index) setup.snapshots)

  -- The mark of the fills: the event's, or that of the last quote.
  unfoldable pub fill_mark : MarketEvent → Option ℕ → Method (Day S) ℕ
  fill_mark event (some mark) = pure mark
  fill_mark event none = do
    d ← gets (λ d. d)
    elim (lookup event.symbol_id d.last_quotes) [
      | none ↦ lift (err (fail ErrorCode.price none none))
      | some last ↦ pure (mid2 last)
    ]

  -- `if event_result.fills: ...`, which returns the mark for what follows.
  unfoldable pub settle_fills : MarketEvent → Option ℕ → List QueueFill → Method (Day S) (Option ℕ)
  settle_fills event mark_mid2 [] = pure mark_mid2
  settle_fills event mark_mid2 (f ∷ fs) = do
    mark ← fill_mark event mark_mid2
    account_fills (f ∷ fs) mark
    pure (some mark)

  abbrev pub reordered : ℕ → Day S → Day S
  reordered next_order_id d = record d { next_order_id = next_order_id }

  abbrev pub rescheduled : MarketEvent → Day S → Day S
  rescheduled event d = record d {
    next_decision =
        insert event.symbol_id
          (setup.session_start_ns
            + next_multiple setup.decision_interval_ns
                (event.timestamp_ns - setup.session_start_ns))
          d.next_decision;
  }

  -- The decision of the strategy, and the orders that it asks for.
  unfoldable pub decide_quotes : MarketEvent → Method (Day S) (Unit {0})
  decide_quotes event = do
    held ← on_ledger (inventory event.symbol_id)
    decision ←
        on_strategy event.symbol_id (strategy.decide event.message_index event.timestamp_ns held)
    d ← gets (λ d. d)
    next ← on_state (refresh_quotes decision event.timestamp_ns event.message_index d.next_order_id)
    modify (λ d. rescheduled event (reordered next d))

  -- `event.timestamp_ns >= next_decision[event.symbol_id]`, which is tested last.
  unfoldable pub maybe_decide : EventRow → MarketEvent → Option ℕ → Method (Day S) (Unit {0})
  maybe_decide raw event mark_mid2 =
      if raw.in_session && is_some mark_mid2
      then (do
        due ← (do o ← gets (λ d. lookup event.symbol_id d.next_decision); or_key_error o)
        if leb due event.timestamp_ns then decide_quotes event else pure tt)
      else pure tt

  abbrev pub with_equity : EquityRow → Day S → Day S
  with_equity row d = record d { equity = d.equity ++ row ∷ [] }

  -- `events[offset + 1]["timestamp_ns"]`, with the rows that follow.
  unfoldable pub next_timestamp : List EventRow → Method (Day S) (Option ℕ)
  next_timestamp [] = pure none
  next_timestamp (r ∷ _) = do t ← or_key_error r.timestamp_ns; pure (some t)

  -- `if next_timestamp != event.timestamp_ns: queue.complete_market_timestamp(...)`
  unfoldable pub complete_last : MarketEvent → List EventRow → Method (Day S) (Unit {0})
  complete_last event rest = do
    next ← next_timestamp rest
    if same_number next (some event.timestamp_ns)
        then pure tt
        else (do _ ← on_queue (complete_market_timestamp event.timestamp_ns); pure tt)

  -- The body of the loop after the event, for a symbol in scope.
  unfoldable pub follow_event :
      EventRow → List EventRow → QueueEventResult → Method (Day S) (Unit {0})
  follow_event raw rest r = do
    mark ← mark_snapshot r.event
    mark' ← settle_fills r.event mark r.fills
    maybe_decide raw r.event mark'
    a ← on_ledger snapshot
    modify (with_equity (equity_row (some r.event.message_index) r.event.timestamp_ns a))
    complete_last r.event rest

  -- `if event_symbol is None: raise ...`, and the rest of the body.
  abbrev pub with_symbol :
      EventRow
      → List EventRow
      → QueueEventResult
      → Option SimulationSymbol
      → Method (Day S) (Unit {0})
  with_symbol raw rest r none = lift (err (fail ErrorCode.unknown_symbol none none))
  with_symbol raw rest r (some _) = follow_event raw rest r

  -- The body of the loop.
  unfoldable pub process_row : EventRow → List EventRow → Method (Day S) (Unit {0})
  process_row raw rest = do
    r ← on_queue (process_market_event raw.source)
    with_symbol raw rest r (lookup r.event.symbol_id setup.symbols)

  -- The loop over the events.
  unfoldable pub process_rows : List EventRow → Method (Day S) (Unit {0})
  process_rows [] = pure tt
  process_rows (raw ∷ rest) = do process_row raw rest; process_rows rest

  -- `min(day.session_end_ns - 1, 86_399_999_999_999)`, of a session that does not end at 0.
  abbrev pub terminal_timestamp : ℕ
  terminal_timestamp =
      if leb (setup.session_end_ns - 1) 86399999999999
      then setup.session_end_ns - 1
      else 86399999999999

  abbrev pub put_session : OrderStateMachine × AccountingLedger → Day S → Day S
  put_session t d = record d { queue = put_machine t.0 d.queue; ledger = t.1 }

  -- `settle_session_end(...)`, and the last point of the equity.
  unfoldable pub settle_day : Method (Day S) TerminalSettlement
  settle_day = do
    quotes ← gets (λ d. map (λ e. e.1) d.last_quotes)
    settlement ←
        at_part (λ d. (d.queue.state_machine, d.ledger)) put_session
          (settle_session_end terminal_timestamp quotes setup.taker_fee_microusd_per_share)
    modify (with_equity (equity_row none terminal_timestamp settlement.accounting))
    pure settlement

  -- The events of a day in their order, and its settlement.
  unfoldable pub settle_events : List EventRow → Method (Day S) TerminalSettlement
  settle_events events = do rows ← or_key_error (sorted_rows events); process_rows rows; settle_day
