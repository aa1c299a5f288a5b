-- ===== src/QueueModel/Session.antt =====
-- queue_model.py: a session of source events, completed timestamps and calls of the strategy.
use itch_lab.Base.{◌≡◌, ◌≢◌, refl, ◌∙◌, ℕ, none, some, List, [], ◌∷◌, ◌++◌, All, arith, nat_eq}
use itch_lab.Base.Dict.{Dict, lookup, insert, lookup-insert}
use itch_lab.Errors.{ErrorCode, SimulationError}
use itch_lab.Order.{fail}
use itch_lab.StateMachine.Calls.{Call, call}
use itch_lab.StateMachine.Calls.Invariant.{call-IsValid}
use itch_lab.MarketEvents.{MarketEvent}
use itch_lab.MarketEvents.Adapt.{Input}
use itch_lab.QueueModel.{QueueFill}
use itch_lab.QueueModel.Method.{
  Ran, Method, ◌>>=◌, pure, gets, lift, Ends-bind, Ends-pure, Ends-map, Ends-at_part,
}
use itch_lab.QueueModel.Model.{VisibleQueueModel, on_machine}
use itch_lab.QueueModel.Handlers.{apply_broken_trade}
use itch_lab.QueueModel.Process.{process_market_event, complete_market_timestamp}
use itch_lab.QueueModel.Invariant.{IsWithin, Keeps, put_machine-IsWithin}
use itch_lab.QueueModel.Invariant.Process.{
  Fills, process_market_event-Keeps, complete_market_timestamp-Keeps,
}

pub data Turn : Type 0 where
  receives : Input → Turn
  completes : ℕ → Turn
  calls : Call → Turn

-- One turn, and the fills that it brings.
unfoldable pub turn : Turn → Method VisibleQueueModel (List QueueFill)
turn (Turn.receives source) = do r ← process_market_event source; pure r.fills
turn (Turn.completes t) = do _ ← complete_market_timestamp t; pure []
turn (Turn.calls c) = do _ ← on_machine (call c); pure []

-- The turns in their order, up to the first that raises.
unfoldable pub play : List Turn → Method VisibleQueueModel (List QueueFill)
play [] = pure []
play (t ∷ ts) = do fills ← turn t; rest ← play ts; pure (fills ++ rest)

-- Each fill's match is new when it comes, and nothing else is added to the used matches.
abbrev pub Consumed : Dict ℕ ℕ → List QueueFill → Dict ℕ ℕ → Type 0
Consumed d [] d' = d' ≡ d
Consumed d (f ∷ fs) d' =
    (lookup f.match_number d ≡ none) × Consumed (insert f.match_number f.simulated_order_id d) fs d'

Consumed-append :
    (fs gs : List QueueFill) (d d' d'' : Dict ℕ ℕ)
    → Consumed d fs d'
    → Consumed d' gs d''
    → Consumed d (fs ++ gs) d''
Consumed-append [] gs d d' d'' h k = rw (← h) k
Consumed-append (f ∷ fs) gs d d' d'' h k =
    (h.0, Consumed-append fs gs (insert f.match_number f.simulated_order_id d) d' d'' h.1 k)

-- A used match stays used by the same order, and no later fill has it.
used_stays :
    (fs : List QueueFill) (m id : ℕ) (d d' : Dict ℕ ℕ)
    → lookup m d ≡ some id
    → Consumed d fs d'
    → (lookup m d' ≡ some id) × All (λ g. g.match_number ≢ m) fs
used_stays [] m id d d' u h = (rw h u, tt)
used_stays (f ∷ fs) m id d d' u h =
    let other : f.match_number ≢ m = λ e. ground (arith, h.0, u, e) in
    let (a, b) =
      used_stays fs m id (insert f.match_number f.simulated_order_id d) d'
        (ground (arith, lookup-insert f.match_number m f.simulated_order_id d, u, other)) h.1 in
    (a, (other, b))

-- No two fills have the same match.
abbrev pub Distinct : List QueueFill → Type 0
Distinct [] = Unit {0}
Distinct (f ∷ fs) = All (λ g. g.match_number ≢ f.match_number) fs × Distinct fs

-- The match of each fill is used, by the fill's order.
abbrev pub Used : Dict ℕ ℕ → List QueueFill → Type 0
Used d = All (λ f. lookup f.match_number d ≡ some f.simulated_order_id)

Consumed-Distinct :
    (fs : List QueueFill) (d d' : Dict ℕ ℕ) → Consumed d fs d' → Distinct fs × Used d' fs
Consumed-Distinct [] d d' h = (tt, tt)
Consumed-Distinct (f ∷ fs) d d' h =
    let d1 = insert f.match_number f.simulated_order_id d in
    let (a, b) =
      used_stays fs f.match_number f.simulated_order_id d1 d'
        (ground (arith, lookup-insert f.match_number f.match_number f.simulated_order_id d)) h.1 in
    let (c, e) = Consumed-Distinct fs d1 d' h.1 in ((b, c), (a, e))

abbrev pub Consumes : VisibleQueueModel → List QueueFill → VisibleQueueModel → Type 0
Consumes s fills s' = Consumed s.used_fill_matches fills s'.used_fill_matches

module _ (s : VisibleQueueModel) (w : IsWithin s) where
  Fills-Consumes :
      (e : MarketEvent) (u : VisibleQueueModel) (fills : List QueueFill) (s' : VisibleQueueModel)
      → u.used_fill_matches ≡ s.used_fill_matches
      → Fills e u fills s'
      → Consumes s fills s'
  Fills-Consumes e u [] s' same h = h ∙ same
  Fills-Consumes e u (f ∷ []) s' same (v, h, k) =
      (ground (arith, h.fresh, same), ground (arith, h.used, k, same))
  Fills-Consumes e u (_ ∷ _ ∷ _) s' same h = absurd h

  turn-Consumes : (t : Turn) → Keeps (Consumes s) (turn t s)
  unfolding turn
  turn-Consumes (Turn.receives source) =
      Ends-bind _ _ s (process_market_event-Keeps source s w)
        λ r s' h. Ends-pure r.fills s' (h.0, Fills-Consumes r.event _ r.fills s' refl h.1)
  turn-Consumes (Turn.completes t) =
      Ends-bind _ _ s (complete_market_timestamp-Keeps s w t) λ _ s' h. Ends-pure [] s' h
  turn-Consumes (Turn.calls c) =
      let v = put_machine-IsWithin s w _ (call-IsValid c s.state_machine w.sound.machine) in
      Ends-at_part _ _ (call c) _ s v.sound λ _ _. Ends-pure [] _ (v, refl)

play-Consumes :
    (ts : List Turn) (s : VisibleQueueModel) → IsWithin s → Keeps (Consumes s) (play ts s)
unfolding play
play-Consumes [] s w = Ends-pure [] s (w, refl)
play-Consumes (t ∷ ts) s w = Ends-bind _ _ s (turn-Consumes s w t) λ fills u h.
    Ends-bind _ _ u (play-Consumes ts u h.0)
      λ rest v k. Ends-pure (fills ++ rest) v (k.0, Consumed-append fills rest _ _ _ h.1 k.1)

-- A session of any turns on a model within its anomaly budget never fails with a KeyError. It
-- raises and leaves a sound model, or it returns and leaves the model within its budget; then no two
-- of its fills have the same match, and the match of each is used by its order.
pub play-Distinct :
    (ts : List Turn) (s : VisibleQueueModel)
    → IsWithin s
    → Keeps (λ fills s'. Distinct fills × Used s'.used_fill_matches fills) (play ts s)
play-Distinct ts s w =
    Ends-map (play-Consumes ts s w)
      λ fills s' h. (h.0, Consumed-Distinct fills s.used_fill_matches s'.used_fill_matches h.1)

-- The event with the fill's match as its reference.
abbrev pub naming : MarketEvent → QueueFill → MarketEvent
naming e f = record e { primary_reference = some f.match_number }

-- The error that tells of a broken trade of a used match.
abbrev pub broken : MarketEvent → QueueFill → SimulationError
broken e f = fail ErrorCode.broken_sim_fill (some f.simulated_order_id) (some e.message_index)

apply_broken_trade_used :
    (e : MarketEvent) (f : QueueFill) (s : VisibleQueueModel)
    → lookup f.match_number s.used_fill_matches ≡ some f.simulated_order_id
    → apply_broken_trade (naming e f) s ≡ (Ran.raised (broken e f), s)
unfolding apply_broken_trade ◌>>=◌ gets lift
apply_broken_trade_used e f s u = ground (arith, u)

broken_each :
    (fs : List QueueFill) (e : MarketEvent) (s : VisibleQueueModel)
    → Used s.used_fill_matches fs
    → All (λ f. apply_broken_trade (naming e f) s ≡ (Ran.raised (broken e f), s)) fs
broken_each [] e s u = tt
broken_each (f ∷ fs) e s u = (apply_broken_trade_used e f s u.0, broken_each fs e s u.1)

-- After a session that returned, on a model within its anomaly budget, a broken trade of the match of
-- any of its fills raises BROKEN_SIM_FILL for the fill's order.
pub play-apply_broken_trade :
    (ts : List Turn) (e : MarketEvent) (s : VisibleQueueModel)
    → IsWithin s
    → Keeps
        (λ fills s'.
          All (λ f. apply_broken_trade (naming e f) s' ≡ (Ran.raised (broken e f), s')) fills)
        (play ts s)
play-apply_broken_trade ts e s w =
    Ends-map (play-Distinct ts s w) λ fills s' h. (h.0, broken_each fills e s' h.1.1)
