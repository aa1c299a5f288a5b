-- ===== src/Scheduler/Delivery.antt =====
-- scheduler.py: which actions a market message or the end of a timestamp makes effective.
use itch_lab.Base.{ℕ, ◌≤◌, ◌<◌, ◌≡◌, refl, Bool, true, false, List, [], ◌∷◌, ◌++◌, All, arith}
use itch_lab.Base.Result.{ok}
use itch_lab.Scheduler.{
  ScheduledAction, LatencyScheduler, earlier, not_due, pop_due, actions_before_market,
  actions_after_market_timestamp,
}
use itch_lab.Scheduler.Order.{IsSorted}

pub append-pop_due :
    (t : ℕ) (i : Bool) (h : List ScheduledAction) → (pop_due t i h).0 ++ (pop_due t i h).1 ≡ h
unfolding pop_due
append-pop_due t i [] = refl
append-pop_due t i (a ∷ h) = ground (arith, append-pop_due t i h)

due-pop_due :
    (t : ℕ) (i : Bool) (h : List ScheduledAction)
    → All (λ a. not_due t i a ≡ false) (pop_due t i h).0
unfolding pop_due
due-pop_due t i [] = tt
due-pop_due t i (a ∷ h) = ground (arith, due-pop_due t i h)

not_due_behind :
    (t : ℕ) (i : Bool) (a : ScheduledAction) (h : List ScheduledAction)
    → not_due t i a ≡ true
    → All (λ b. earlier a b ≡ true) h
    → All (λ b. not_due t i b ≡ true) h
not_due_behind t i a [] n q = tt
not_due_behind t i a (b ∷ h) n q = (ground arith, not_due_behind t i a h n q.1)

not_due-pop_due :
    (t : ℕ) (i : Bool) (h : List ScheduledAction)
    → IsSorted h
    → All (λ a. not_due t i a ≡ true) (pop_due t i h).1
unfolding pop_due
not_due-pop_due t i [] s = tt
not_due-pop_due t i (a ∷ h) s = ground (arith, not_due-pop_due t i h s.1, not_due_behind t i a h)

-- The tests of the two calls, as orders.
All-map {ℓ κ} :
    {P : ScheduledAction → Type ℓ} {Q : ScheduledAction → Type κ} (h : List ScheduledAction)
    → ((a : ScheduledAction) → P a → Q a)
    → All P h
    → All Q h
All-map [] f p = tt
All-map (a ∷ h) f p = (f a p.0, All-map h f p.1)

pub before_out :
    (t : ℕ) (h : List ScheduledAction)
    → All (λ a. a.effective_timestamp_ns < t) (pop_due t false h).0
before_out t h = All-map _ (λ a d. ground arith) (due-pop_due t false h)

pub before_left :
    (t : ℕ) (h : List ScheduledAction)
    → IsSorted h
    → All (λ a. t ≤ a.effective_timestamp_ns) (pop_due t false h).1
before_left t h s = All-map _ (λ a d. ground arith) (not_due-pop_due t false h s)

pub after_out :
    (t : ℕ) (h : List ScheduledAction)
    → All (λ a. a.effective_timestamp_ns ≤ t) (pop_due t true h).0
after_out t h = All-map _ (λ a d. ground arith) (due-pop_due t true h)

pub after_left :
    (t : ℕ) (h : List ScheduledAction)
    → IsSorted h
    → All (λ a. t < a.effective_timestamp_ns) (pop_due t true h).1
after_left t h s = All-map _ (λ a d. ground arith) (not_due-pop_due t true h s)

-- When a message of time t opens on a sorted heap, the actions delivered and those kept are
-- together the heap, in its order; the delivered ones are effective before t and the kept ones at
-- t or later.
pub actions_before_market-splits :
    (t m : ℕ) (s : LatencyScheduler) {out : List ScheduledAction} {s' : LatencyScheduler}
    → IsSorted s.heap
    → actions_before_market t m s ≡ (ok out, s')
    → (out ++ s'.heap ≡ s.heap)
      × All (λ a. a.effective_timestamp_ns < t) out
      × All (λ a. t ≤ a.effective_timestamp_ns) s'.heap
unfolding actions_before_market
actions_before_market-splits t m s sorted e =
    ground (arith, append-pop_due t false s.heap, before_out t s.heap, before_left t s.heap sorted)

-- When the timestamp t is completed on a sorted heap, the actions delivered and those kept are
-- together the heap, in its order; the delivered ones are effective at t or before and the kept
-- ones after t.
pub actions_after_market_timestamp-splits :
    (t : ℕ) (s : LatencyScheduler) {out : List ScheduledAction} {s' : LatencyScheduler}
    → IsSorted s.heap
    → actions_after_market_timestamp t s ≡ (ok out, s')
    → (out ++ s'.heap ≡ s.heap)
      × All (λ a. a.effective_timestamp_ns ≤ t) out
      × All (λ a. t < a.effective_timestamp_ns) s'.heap
unfolding actions_after_market_timestamp
actions_after_market_timestamp-splits t s sorted e =
    ground (arith, append-pop_due t true s.heap, after_out t s.heap, after_left t s.heap sorted)
