-- ===== src/Scheduler/Invariant.antt =====
-- scheduler.py: the invariant of the scheduler, kept by every call, also by one that raises.
use itch_lab.Base.{
  ℕ, ◌<◌, ◌+◌, inl, inr, true, false, Option, none, some, List, [], ◌∷◌, ◌≤◌, All, arith,
}
use itch_lab.Scheduler.{
  ScheduledActionKind, ScheduledAction, LatencyScheduler, init, schedule, actions_before_market,
  actions_after_market_timestamp, make_action,
}
use itch_lab.Scheduler.Cases.{
  Beyond, Covers, Beyond-mono, schedule_cases, before_cases, after_cases,
}
use itch_lab.Scheduler.Order.{IsSorted, All-push, All-pop_due, push-IsSorted, pop_due-IsSorted}
use itch_lab.Scheduler.Delivery.{before_left, after_left}

pub record IsValid (s : LatencyScheduler) : Type 0 where
  pub sorted : IsSorted s.heap
  pub fresh : All (λ a. a.sequence < s.next_sequence) s.heap
  pub pending : All (λ a. Beyond s.completed_market_timestamp_ns a.effective_timestamp_ns) s.heap
  pub opened : Covers s.completed_market_timestamp_ns s.last_market_timestamp_ns

pub init-IsValid : IsValid init
init-IsValid = record { sorted = tt; fresh = tt; pending = tt; opened = tt }

fresh-suc :
    (n : ℕ) (h : List ScheduledAction)
    → All (λ a. a.sequence < n) h
    → All (λ a. a.sequence < n + 1) h
fresh-suc n [] f = tt
fresh-suc n (a ∷ h) f = (omega arith, fresh-suc n h f.1)

-- Actions that become effective from a time on lie beyond every earlier time.
Beyond-All :
    (c : Option ℕ) (t : ℕ) (h : List ScheduledAction)
    → Beyond c t
    → All (λ a. t ≤ a.effective_timestamp_ns) h
    → All (λ a. Beyond c a.effective_timestamp_ns) h
Beyond-All c t [] b q = tt
Beyond-All none t (a ∷ h) b q = (tt, Beyond-All none t h b q.1)
Beyond-All (some c) t (a ∷ h) b q = (omega arith, Beyond-All (some c) t h b q.1)

module _ (s : LatencyScheduler) (v : IsValid s) where
  pub schedule-IsValid :
      (k : ScheduledActionKind) (id t m l : ℕ) → IsValid (schedule k id t m l s).1
  schedule-IsValid k id t m l = elim (schedule_cases k id t m l s) [
    | inl r ↦ rw r.1 v
    | inr (_, later, e) ↦
        let a = make_action k id t m (t + l) s in
        rw e (record {
          sorted = push-IsSorted a s.heap v.fresh v.sorted;
          fresh =
              All-push (λ b. b.sequence < s.next_sequence + 1) a s.heap (omega arith)
                (fresh-suc s.next_sequence s.heap v.fresh);
          pending =
              All-push (λ b. Beyond s.completed_market_timestamp_ns b.effective_timestamp_ns) a
                s.heap (Beyond-mono s.completed_market_timestamp_ns t l later) v.pending;
          opened = v.opened;
        })
  ]

  pub actions_before_market-IsValid : (t m : ℕ) → IsValid (actions_before_market t m s).1
  actions_before_market-IsValid t m = elim (before_cases t m s) [
    | inl r ↦ rw r.1 v
    | inr (later, covers, _, e) ↦ rw e (record {
      sorted = pop_due-IsSorted t false s.heap v.sorted;
      fresh = (All-pop_due (λ a. a.sequence < s.next_sequence) t false s.heap v.fresh).1;
      pending = Beyond-All _ t _ later (before_left t s.heap v.sorted);
      opened = covers;
    })
  ]

  pub actions_after_market_timestamp-IsValid :
      (t : ℕ) → IsValid (actions_after_market_timestamp t s).1
  actions_after_market_timestamp-IsValid t = elim (after_cases t s) [
    | inl r ↦ rw r.1 v
    | inr (covers, e) ↦ rw e (record {
      sorted = pop_due-IsSorted t true s.heap v.sorted;
      fresh = (All-pop_due (λ a. a.sequence < s.next_sequence) t true s.heap v.fresh).1;
      pending = after_left t s.heap v.sorted;
      opened = covers;
    })
  ]

-- The calls of the scheduler, and a run of any sequence of them; a call that raises is caught.
pub data Call : Type 0 where
  schedules : ScheduledActionKind → ℕ → ℕ → ℕ → ℕ → Call
  opens : ℕ → ℕ → Call
  completes : ℕ → Call

abbrev pub call : Call → LatencyScheduler → LatencyScheduler
call (schedules k id t m l) s = (schedule k id t m l s).1
call (opens t m) s = (actions_before_market t m s).1
call (completes t) s = (actions_after_market_timestamp t s).1

pub run : List Call → LatencyScheduler → LatencyScheduler
run [] s = s
run (c ∷ cs) s = run cs (call c s)

call-IsValid : (c : Call) (s : LatencyScheduler) → IsValid s → IsValid (call c s)
call-IsValid (schedules k id t m l) s v = schedule-IsValid s v k id t m l
call-IsValid (opens t m) s v = actions_before_market-IsValid s v t m
call-IsValid (completes t) s v = actions_after_market_timestamp-IsValid s v t

-- After any sequence of calls on a valid scheduler, raising calls included, the pending actions
-- stand in strict order of (effective timestamp, sequence), their sequence numbers are below the
-- next one, none is effective at or before the completed timestamp, and the completed timestamp
-- is not after the last opened one.
pub run-IsValid : (cs : List Call) (s : LatencyScheduler) → IsValid s → IsValid (run cs s)
unfolding run
run-IsValid [] s v = v
run-IsValid (c ∷ cs) s v = run-IsValid cs (call c s) (call-IsValid c s v)
