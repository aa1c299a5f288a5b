-- ===== src/Runner.antt =====
-- python/src/itchlab_research/simulation/runner.py: the state of one day's run, the rows that it
-- reads and writes, and the calls of its parts. A strategy is an interface: the two strategies of
-- the source answer the same calls, and what they hold is a parameter.
pub mod Quotes
pub mod Fills
pub mod Loop
pub mod Kept
pub mod Requests
pub mod Marking
pub mod Steps
pub mod Opening
pub mod Session
pub mod Results
pub mod Whole
pub mod Ending
mod Tests
use itch_lab.Base.{
  ℕ, Bool, ◌&&◌, ◌≡◌, ◌↔◌, true, false, Option, none, some, List, [], ◌∷◌, arith, eqb, eqb_iff, Eq,
  is_some, nat_eq, if◌then◌else◌,
}
use itch_lab.Base.Int.{ℤ}
use itch_lab.Base.Dict.{Dict, lookup, contains, insert}
use itch_lab.Base.Result.{Result, ok, err}
use itch_lab.Base.Action.{Action}
use itch_lab.Errors.{ErrorCode}
use itch_lab.Order.{fail}
use itch_lab.StateMachine.{OrderStateMachine}
use itch_lab.MarketEvents.Adapt.{Input}
use itch_lab.QueueModel.Method.{Ran, Method, at_part}
use itch_lab.QueueModel.Model.{VisibleQueueModel, put_machine}
use itch_lab.Accounting.{AccountingLedger}
use itch_lab.Liquidation.{TerminalQuote}
use Prim.Native.String.{String}

-- A row of the day's events: what the queue model reads of it, and what the runner itself reads,
-- `row["message_index"]` and `row["timestamp_ns"]`, which are `none` for a row without the key.
pub record EventRow : Type 0 where
  pub source : Input
  pub message_index : Option ℕ
  pub timestamp_ns : Option ℕ
  pub in_session : Bool

-- The row has the keys that the runner reads.
abbrev pub IsKeyed : EventRow → Type 0
IsKeyed r = (is_some r.message_index ≡ true) × (is_some r.timestamp_ns ≡ true)

-- A row of the day's snapshots, with the best prices of the two sides.
pub record SnapshotRow : Type 0 where
  pub symbol_id : ℕ
  pub message_index : ℕ
  pub bid_price4_1 : Option ℕ
  pub ask_price4_1 : Option ℕ

pub record SimulationSymbol : Type 0 where
  pub symbol : String
  pub symbol_id : ℕ
  pub tick_size4 : ℕ

pub record QuoteProposal : Type 0 where
  pub price4 : ℕ
  pub quantity : ℕ

-- What the runner reads of a decision (`_quote_pair`, `_prediction_index`).
pub record Decision : Type 0 where
  pub symbol_id : ℕ
  pub prediction_message_index : Option ℕ
  pub bid : Option QuoteProposal
  pub ask : Option QuoteProposal

-- The calls of a strategy.
pub record Strategy (S : Type 0) : Type 0 where
  pub observe_quote :
      (message_index timestamp_ns best_bid_price4 best_ask_price4 : ℕ) → Action S (Unit {0})
  pub decide : (decision_message_index timestamp_ns : ℕ) (inventory_shares : ℤ) → Action S Decision

pub record FillRow : Type 0 where
  pub fill_id : ℕ
  pub simulated_order_id : ℕ
  pub market_message_index : ℕ
  pub timestamp_ns : ℕ
  pub symbol_id : ℕ
  pub side : ℤ
  pub price4 : ℕ
  pub quantity : ℕ
  pub fee_microusd : ℤ
  pub cash_delta_microusd : ℤ
  pub inventory_after : ℤ
  pub fill_mid2 : ℕ
  pub future_mid2 : Option ℕ
  pub adverse_selection_100ms_microusd : Option ℤ

pub record EquityRow : Type 0 where
  pub message_index : Option ℕ
  pub timestamp_ns : ℕ
  pub marked_pnl_microusd : ℤ
  pub cash_microusd : ℤ
  pub marked_inventory_value_microusd : ℤ

-- (symbol_id, message_index)
abbrev pub SnapshotKey : Type 0
SnapshotKey = ℕ × ℕ

abbrev pub eqb_key : SnapshotKey → SnapshotKey → Bool
eqb_key (a, b) (c, d) = eqb a c && eqb b d

pub eqb_key_iff : (a b : SnapshotKey) → (eqb_key a b ≡ true) ↔ (a ≡ b)
eqb_key_iff (a, b) (c, d) = ground (arith, eqb_iff a c, eqb_iff b d)

instance abbrev pub key_eq : Eq SnapshotKey
key_eq = record { beq = eqb_key; beq_iff = eqb_key_iff }

-- What does not change during a day.
pub record Setup : Type 0 where
  pub session_start_ns : ℕ
  pub session_end_ns : ℕ
  pub decision_interval_ns : ℕ
  pub taker_fee_microusd_per_share : ℤ
  pub symbols : Dict ℕ SimulationSymbol
  pub snapshots : Dict SnapshotKey SnapshotRow

-- What changes: the variables of the day's loop, and the objects that it calls.
pub record Day (S : Type 0) : Type 0 where
  pub queue : VisibleQueueModel
  pub ledger : AccountingLedger
  pub strategies : Dict ℕ S
  pub next_decision : Dict ℕ ℕ
  pub last_quotes : Dict ℕ TerminalQuote
  pub quote_timeline : Dict ℕ (List (ℕ × ℕ))
  pub next_order_id : ℕ
  pub next_fill_id : ℕ
  pub fills : List FillRow
  pub equity : List EquityRow

-- `_snapshot_by_key`
unfoldable pub snapshot_by_key :
    List SnapshotRow → Dict SnapshotKey SnapshotRow → Result (Dict SnapshotKey SnapshotRow)
snapshot_by_key [] result = ok result
snapshot_by_key (row ∷ rows) result =
    if contains (row.symbol_id, row.message_index) result
    then err (fail ErrorCode.simulation_anomaly none none)
    else snapshot_by_key rows (insert (row.symbol_id, row.message_index) row result)

module _ {S : Type 0} where
  -- A call of the queue model, which may also fail with a KeyError.
  unfoldable pub on_queue : {A : Type 0} → Method VisibleQueueModel A → Method (Day S) A
  on_queue m d = let (r, q) = m d.queue in (r, record d { queue = q })

  abbrev pub put_state : OrderStateMachine → Day S → Day S
  put_state m d = record d { queue = put_machine m d.queue }

  -- A call of the machine that the queue model also holds.
  abbrev pub on_state : {A : Type 0} → Action OrderStateMachine A → Method (Day S) A
  on_state = at_part (λ d. d.queue.state_machine) put_state

  abbrev pub put_ledger : AccountingLedger → Day S → Day S
  put_ledger l d = record d { ledger = l }

  abbrev pub on_ledger : {A : Type 0} → Action AccountingLedger A → Method (Day S) A
  on_ledger = at_part (λ d. d.ledger) put_ledger

  abbrev pub put_strategy : ℕ → S → Day S → Day S
  put_strategy symbol_id t d = record d { strategies = insert symbol_id t d.strategies }
