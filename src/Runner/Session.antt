-- ===== src/Runner/Session.antt =====
-- runner.py: a day, from its opening to its settlement.
use itch_lab.Base.{
  ◌≡◌, refl, ◌⊎◌, inl, inr, ℕ, List, [], ◌∷◌, All, true, some, map, leb, Bool-cases, arith, nat_eq,
}
use itch_lab.Base.Int.{ℤ, pos}
use itch_lab.Base.Dict.{Dict, lookup}
use itch_lab.Base.Result.{Result, ok}
use itch_lab.StateMachine.{OrderStateMachine}
use itch_lab.QueueModel.Method.{
  Ran, Ends, returns, raises, type_errors, Ends-bind, Ends-gets, Ends-pure, Ends-modify,
  Ends-at_part, Ends-or_key_error,
}
use itch_lab.QueueModel.Invariant.{IsSound, put_machine-IsWithin}
use itch_lab.Accounting.{AccountingLedger}
use itch_lab.Accounting.Marks.{position}
use itch_lab.Accounting.Flat.{IsFlat}
use itch_lab.Accounting.Limits.{IsLimited}
use itch_lab.Liquidation.{TerminalSettlement, TerminalQuote}
use itch_lab.Liquidation.Settle.{settle_session_end}
use itch_lab.Liquidation.Outcome.{IsRefused, IsSettled, settle_outcome}
use itch_lab.Runner.Opening.{ExecutionScenario, open_day, open_day-IsOpen}
use itch_lab.Runner.{EventRow, IsKeyed, SimulationSymbol, Strategy, Setup, Day}
use itch_lab.Runner.Loop.{
  index_of, all_indexed, insert_row, inserted_rows, sorted_rows, terminal_timestamp, put_session,
  settle_day, settle_events,
}
use itch_lab.Runner.Kept.{IsOpen, Kept}
use itch_lab.Runner.Steps.{process_rows-Kept}

flat_position : (k : ℕ) (d : Dict ℕ ℤ) → IsFlat d → position k d ≡ pos 0
unfolding lookup
flat_position k [] h = refl
flat_position k ((j, v) ∷ d) h = ground (arith, h.0, flat_position k d h.1)

pub IsFlat-IsLimited : (l : AccountingLedger) → IsFlat l.positions → IsLimited l
IsFlat-IsLimited l h k = ground (arith, flat_position k l.positions h)

-- What a day leaves that raised: a sound queue model, and inventories within the limit.
pub record IsSafe {S : Type 0} (d : Day S) : Type 0 where
  pub queue : IsSound d.queue
  pub limited : IsLimited d.ledger

-- And one that returned: no order is open, the ledger is settled, and no position is held.
pub record IsClosedDay {S : Type 0} (d : Day S) : Type 0 where
  pub queue : IsSound d.queue
  pub settled : IsSettled (d.queue.state_machine, d.ledger)

module _ {S : Type 0} (strategy : Strategy S) (setup : Setup) where
  module _ (d : Day S) (o : IsOpen setup d) (quotes : List TerminalQuote) where
    abbrev outcome : Result TerminalSettlement × (OrderStateMachine × AccountingLedger)
    outcome =
        settle_session_end (terminal_timestamp strategy setup) quotes
          setup.taker_fee_microusd_per_share (d.queue.state_machine, d.ledger)

    abbrev after : Day S
    after = put_session strategy setup outcome.1 d

    settled-IsClosedDay : IsSettled outcome.1 → IsClosedDay after
    settled-IsClosedDay h = record {
      queue = (put_machine-IsWithin d.queue o.queue outcome.1.0 h.0).sound;
      settled = h;
    }

    refused-IsSafe : IsRefused d.queue.state_machine d.ledger outcome → IsSafe after
    refused-IsSafe (_, m, b) = record {
      queue = (put_machine-IsWithin d.queue o.queue outcome.1.0 (rw m o.queue.sound.machine)).sound;
      limited = rw b o.limited;
    }

    settled-IsSafe : IsSettled outcome.1 → IsSafe after
    settled-IsSafe h = record {
      queue = (settled-IsClosedDay h).queue;
      limited = IsFlat-IsLimited outcome.1.1 h.3;
    }

    settle_cases : IsRefused d.queue.state_machine d.ledger outcome ⊎ IsSettled outcome.1
    settle_cases =
        settle_outcome (terminal_timestamp strategy setup) quotes setup.taker_fee_microusd_per_share
          d.queue.state_machine d.ledger o.queue.sound.machine o.ledger.dict

    outcome-IsSafe : IsSafe after
    outcome-IsSafe = elim settle_cases [ inl h ↦ refused-IsSafe h | inr h ↦ settled-IsSafe h ]

    outcome-IsClosedDay : (t : TerminalSettlement) → outcome.0 ≡ ok t → IsClosedDay after
    outcome-IsClosedDay t e = elim settle_cases [
      | inl h ↦ absurd (ground (arith, h.0, e))
      | inr h ↦ settled-IsClosedDay h
    ]

  -- A run that closes the day, or raises and leaves it safe.
  abbrev pub Closes : Ran TerminalSettlement × Day S → Type 0
  Closes = Ends IsSafe λ _ d. IsClosedDay d

  settle_day-Closes : (d : Day S) → IsOpen setup d → Closes (settle_day strategy setup d)
  unfolding settle_day
  settle_day-Closes d o = Ends-gets _ _ d (
      Ends-at_part _ _
        (settle_session_end (terminal_timestamp strategy setup) (map (λ e. e.1) d.last_quotes)
          setup.taker_fee_microusd_per_share)
        _ d (outcome-IsSafe d o _)
        λ t e.
          let c = outcome-IsClosedDay d o _ t e in
          Ends-modify _ _ _ (Ends-pure t _ (record { queue = c.queue; settled = c.settled })))

  stopped-IsSafe :
      (r : Ran (Unit {0}) × Day S) → Kept setup r → Ends IsSafe (λ _ d. IsOpen setup d) r
  stopped-IsSafe _ (returns o) = returns o
  stopped-IsSafe _ (raises s) = raises (record { queue = s.queue; limited = s.limited })
  stopped-IsSafe _ (type_errors s) = type_errors (record { queue = s.queue; limited = s.limited })

  insert_row-IsKeyed :
      (r : EventRow) (rows : List EventRow)
      → IsKeyed r
      → All IsKeyed rows
      → All IsKeyed (insert_row r rows)
  unfolding insert_row
  insert_row-IsKeyed r [] k a = (k, tt)
  insert_row-IsKeyed r (q ∷ rows) k a = elim (Bool-cases (leb (index_of r) (index_of q))) [
    | inl e ↦ rw e (k, a)
    | inr e ↦ rw e (a.0, insert_row-IsKeyed r rows k a.1)
  ]

  inserted_rows-IsKeyed :
      (rows : List EventRow) → All IsKeyed rows → All IsKeyed (inserted_rows rows)
  unfolding inserted_rows
  inserted_rows-IsKeyed [] a = tt
  inserted_rows-IsKeyed (r ∷ rows) a =
      insert_row-IsKeyed r (inserted_rows rows) a.0 (inserted_rows-IsKeyed rows a.1)

  keyed_indexed : (rows : List EventRow) → All IsKeyed rows → all_indexed rows ≡ true
  keyed_indexed [] a = refl
  keyed_indexed (r ∷ rows) a = ground (arith, a.0.0, keyed_indexed rows a.1)

  sorted_ok :
      (rows : List EventRow) → All IsKeyed rows → sorted_rows rows ≡ some (inserted_rows rows)
  unfolding sorted_rows
  sorted_ok rows a = rw (keyed_indexed rows a) refl

  settle_events-Closes :
      (events : List EventRow) (d : Day S)
      → All IsKeyed events
      → IsOpen setup d
      → Closes (settle_events strategy setup events d)
  unfolding settle_events
  settle_events-Closes events d keyed o = Ends-or_key_error _ _ d (sorted_ok events keyed) (
      Ends-bind _ _ d
        (stopped-IsSafe _ (
          process_rows-Kept strategy setup (inserted_rows events) d
            (inserted_rows-IsKeyed events keyed) o))
        λ _ u h. settle_day-Closes u h)

  -- The same of a day that was opened for any scenario.
  pub open_day-Closes :
      (new_strategy : SimulationSymbol → Result S) (scenario : ExecutionScenario)
      (anomalies limit order_id fill_id : ℕ) (events : List EventRow) (d : Day S)
      → All IsKeyed events
      → open_day new_strategy setup scenario anomalies limit order_id fill_id ≡ ok d
      → Closes (settle_events strategy setup events d)
  open_day-Closes new_strategy scenario anomalies limit order_id fill_id events d keyed h =
      settle_events-Closes events d keyed
        (open_day-IsOpen new_strategy setup scenario anomalies limit order_id fill_id d h)
