-- ===== src/Runner/Kept.antt =====
-- runner.py: what holds of a day while it runs, and what the calls of its parts keep.
use itch_lab.Base.{◌≡◌, refl, ℕ, true, Option, some, arith, is_some, Option-cases, inl, inr, nat_eq}
use itch_lab.Base.Dict.{Dict, lookup, insert, lookup-insert}
use itch_lab.Base.Action.{Action}
use itch_lab.StateMachine.{OrderStateMachine}
use itch_lab.StateMachine.Calls.Invariant as Machine
use itch_lab.QueueModel.Method.{
  Ran, Method, ◌>>=◌, gets, or_key_error, Ends, returns, raises, type_errors, Ends-bind, Ends-gets,
  Ends-modify, Ends-lifted, Ends-at_part,
}
use itch_lab.QueueModel.Model.{VisibleQueueModel}
use itch_lab.QueueModel.Invariant.{IsSound, IsWithin, put_machine-IsWithin, Keeps}
use itch_lab.Accounting.{AccountingLedger}
use itch_lab.Accounting.FillOutcome.{IsBalancedLedger}
use itch_lab.Accounting.Limits.{IsLimited}
use itch_lab.Runner.{
  SimulationSymbol, Setup, Strategy, Day, on_queue, on_state, on_ledger, put_state, put_ledger,
  put_strategy,
}
use itch_lab.Runner.Loop.{on_strategy}

-- Each symbol of the day is a key of the dictionary.
abbrev pub Covers : {V : Type 0} → Dict ℕ SimulationSymbol → Dict ℕ V → Type 0
Covers symbols d = (k : ℕ) → is_some (lookup k symbols) ≡ true → is_some (lookup k d) ≡ true

pub Covers-insert :
    {V : Type 0} (symbols : Dict ℕ SimulationSymbol) (d : Dict ℕ V) (j : ℕ) (v : V)
    → Covers symbols d
    → Covers symbols (insert j v d)
Covers-insert symbols d j v c k h = ground (arith, lookup-insert j k v d, c k h)

pub Covers-found :
    {V : Type 0} (symbols : Dict ℕ SimulationSymbol) (d : Dict ℕ V) (k : ℕ)
    → Covers symbols d
    → is_some (lookup k symbols) ≡ true
    → (v : V) × (lookup k d ≡ some v)
Covers-found symbols d k c h = elim (Option-cases (lookup k d)) [
  | inl e ↦ absurd (ground (arith, c k h, e))
  | inr r ↦ r
]

-- A lookup that finds its key.
pub or_key_error-Ends :
    {S A : Type 0} {E : S → Type 0} {Q : A → S → Type 0} (o : Option A) (s : S) {a : A}
    → o ≡ some a
    → Q a s
    → Ends E Q (or_key_error o s)
unfolding or_key_error
or_key_error-Ends o s e q = rw e (returns q)

module _ {S : Type 0} where
  -- The queue model is sound, the accounts of the ledger agree and its inventories are within the
  -- limit.
  pub record IsStopped (d : Day S) : Type 0 where
    pub queue : IsSound d.queue
    pub ledger : IsBalancedLedger d.ledger
    pub limited : IsLimited d.ledger

  module _ (setup : Setup) where
    -- The queue model is also within its budget, and each symbol has its strategy, its next
    -- decision and its timeline.
    pub record IsOpen (d : Day S) : Type 0 where
      pub queue : IsWithin d.queue
      pub ledger : IsBalancedLedger d.ledger
      pub limited : IsLimited d.ledger
      pub strategies : Covers setup.symbols d.strategies
      pub decisions : Covers setup.symbols d.next_decision
      pub timelines : Covers setup.symbols d.quote_timeline

    -- A run that keeps the day open, or raises and leaves it stopped.
    abbrev pub Kept : {A : Type 0} → Ran A × Day S → Type 0
    Kept = Ends IsStopped λ _ d. IsOpen d

    pub IsOpen-IsStopped : (d : Day S) → IsOpen d → IsStopped d
    IsOpen-IsStopped d o = record { queue = o.queue.sound; ledger = o.ledger; limited = o.limited }

    module _ (d : Day S) (o : IsOpen d) where
      pub put_ledger-IsOpen :
          (l : AccountingLedger) → IsBalancedLedger l → IsLimited l → IsOpen (put_ledger l d)
      put_ledger-IsOpen l b i = record {
        queue = o.queue;
        ledger = b;
        limited = i;
        strategies = o.strategies;
        decisions = o.decisions;
        timelines = o.timelines;
      }

      pub put_state-IsOpen : (m : OrderStateMachine) → Machine.IsValid m → IsOpen (put_state m d)
      put_state-IsOpen m v = record {
        queue = put_machine-IsWithin d.queue o.queue m v;
        ledger = o.ledger;
        limited = o.limited;
        strategies = o.strategies;
        decisions = o.decisions;
        timelines = o.timelines;
      }

      put_strategy-IsOpen : (k : ℕ) (t : S) → IsOpen (put_strategy k t d)
      put_strategy-IsOpen k t = record {
        queue = o.queue;
        ledger = o.ledger;
        limited = o.limited;
        strategies = Covers-insert setup.symbols d.strategies k t o.strategies;
        decisions = o.decisions;
        timelines = o.timelines;
      }

      put_queue-IsOpen : (q : VisibleQueueModel) → IsWithin q → IsOpen (record d { queue = q })
      put_queue-IsOpen q w = record {
        queue = w;
        ledger = o.ledger;
        limited = o.limited;
        strategies = o.strategies;
        decisions = o.decisions;
        timelines = o.timelines;
      }

      -- A call of the ledger that keeps its accounts in agreement.
      pub on_ledger-Kept :
          {A B : Type 0} (m : Action AccountingLedger A) (f : A → Method (Day S) B)
          → IsBalancedLedger (m d.ledger).1
          → IsLimited (m d.ledger).1
          → ((a : A)
              → IsOpen (put_ledger (m d.ledger).1 d)
              → Kept (f a (put_ledger (m d.ledger).1 d)))
          → Kept ((on_ledger m >>= f) d)
      on_ledger-Kept m f b i k =
          Ends-at_part _ _ m f d (record { queue = o.queue.sound; ledger = b; limited = i })
            λ a _. k a (put_ledger-IsOpen _ b i)

      -- A call of the machine that keeps it valid.
      pub on_state-Kept :
          {A B : Type 0} (m : Action OrderStateMachine A) (f : A → Method (Day S) B)
          → Machine.IsValid (m d.queue.state_machine).1
          → ((a : A)
              → IsOpen (put_state (m d.queue.state_machine).1 d)
              → Kept (f a (put_state (m d.queue.state_machine).1 d)))
          → Kept ((on_state m >>= f) d)
      on_state-Kept m f v k =
          Ends-at_part _ _ m f d
            (record {
              queue = (put_machine-IsWithin d.queue o.queue _ v).sound;
              ledger = o.ledger;
              limited = o.limited;
            })
            λ a _. k a (put_state-IsOpen _ v)

      queue_ran :
          {A : Type 0} {Q : A → VisibleQueueModel → Type 0} (r : Ran A × VisibleQueueModel)
          → Keeps Q r
          → Ends {S = Day S} IsStopped (λ _ d'. IsOpen d') (r.0, record d { queue = r.1 })
      queue_ran r (returns (w, _)) = returns (put_queue-IsOpen _ w)
      queue_ran r (raises e) = raises (record { queue = e; ledger = o.ledger; limited = o.limited })
      queue_ran r (type_errors e) =
          type_errors (record { queue = e; ledger = o.ledger; limited = o.limited })

      pub on_queue-Kept :
          {A : Type 0} {Q : A → VisibleQueueModel → Type 0} (m : Method VisibleQueueModel A)
          → Keeps Q (m d.queue)
          → Kept (on_queue m d)
      unfolding on_queue
      on_queue-Kept m k = queue_ran (m d.queue) k

      -- A lookup that finds its key, and the rest.
      pub found-Kept :
          {A B : Type 0} (get : Day S → Option A) (f : A → Method (Day S) B) {a : A}
          → get d ≡ some a
          → Kept (f a d)
          → Kept ((gets get >>= (λ x. or_key_error x) >>= f) d)
      found-Kept get f {a} e k =
          Ends-bind {Q = λ a' d'. (a' ≡ a) × (d' ≡ d)} _ _ d
            (Ends-gets _ _ d (or_key_error-Ends _ d e (refl, refl))) λ a' d' (i, j). rw (i, j) k

      -- A call of a symbol's strategy, which may raise.
      pub on_strategy-Kept :
          {A : Type 0} (strategy : Strategy S) (k : ℕ) (m : Action S A)
          → is_some (lookup k setup.symbols) ≡ true
          → Kept (on_strategy strategy setup k m d)
      unfolding on_strategy
      on_strategy-Kept strategy k m h =
          let (t, e) = Covers-found setup.symbols d.strategies k o.strategies h in
          let p = put_strategy-IsOpen k (m t).1 in
          found-Kept _ _ e
            (Ends-modify _ _ d (Ends-lifted (m t).0 _ (IsOpen-IsStopped _ p) λ _ _. p))
