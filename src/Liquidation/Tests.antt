-- ===== src/Liquidation/Tests.antt =====
-- A settlement of a machine with one open order and a ledger that holds thirty shares.
use itch_lab.Base.{refl, ◌⊎◌, List, [], ◌∷◌, nat_eq}
use itch_lab.Base.Int.{pos, negsuc}
use itch_lab.Base.Dict.{lookup}
use itch_lab.StateMachine.Tests.{machine, machine-IsValid}
use itch_lab.Accounting.{AccountingLedger, empty_ledger, no_totals}
use itch_lab.Liquidation.{TerminalQuote}
use itch_lab.Liquidation.Settle.{settle_session_end}
use itch_lab.Liquidation.Outcome.{IsRefused, IsSettled, settle_outcome}

abbrev ledger : AccountingLedger
ledger = record (empty_ledger (negsuc 1999) 1000) {
  positions = (4, pos 30) ∷ [];
  marks = (4, 2000000) ∷ [];
  totals = record no_totals { gross_passive_cash = negsuc 2999999999 };
}

abbrev quotes : List TerminalQuote
quotes =
    (record {
      symbol_id = 4;
      timestamp_ns = 57599000000000;
      best_bid_price4 = 1000000;
      best_ask_price4 = 1000100;
    })
    ∷ []

settle_outcome_example :
    IsRefused machine ledger (settle_session_end 57600000000000 quotes (pos 3000) (machine, ledger))
    ⊎ IsSettled (settle_session_end 57600000000000 quotes (pos 3000) (machine, ledger)).1
unfolding lookup
settle_outcome_example =
    settle_outcome 57600000000000 quotes (pos 3000) machine ledger machine-IsValid (refl, tt)
