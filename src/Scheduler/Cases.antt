-- ===== src/Scheduler/Cases.antt =====
-- scheduler.py: each call either raises and changes nothing, or passed its guards and has the
-- effect that is written out.
use itch_lab.Base.{ℕ, ◌≤◌, ◌<◌, ◌+◌, ◌≡◌, ◌⊎◌, ◌↔◌, false, true, Option, none, some, arith}
use itch_lab.Base.Result.{ok}
use itch_lab.Base.Action.{Raises}
use itch_lab.Order.{max_timestamp_ns, max_latency_ns}
use itch_lab.Scheduler.{
  ScheduledActionKind, LatencyScheduler, effective_timestamp, schedule, pop_due,
  actions_before_market, actions_after_market_timestamp, make_action, scheduled, opened, completed,
  validate_market_key, completed_before,
}

-- The time lies after the completed one, if there is one.
abbrev pub Beyond : Option ℕ → ℕ → Type 0
Beyond none t = Unit {0}
Beyond (some c) t = c < t

-- A completed time is not after the last opened one.
abbrev pub Covers : Option ℕ → Option ℕ → Type 0
Covers none last = Unit {0}
Covers (some c) none = ⊥
Covers (some c) (some t) = c ≤ t

pub Beyond-mono : (c : Option ℕ) (t l : ℕ) → Beyond c t → Beyond c (t + l)
Beyond-mono none t l b = tt
Beyond-mono (some c) t l b = omega arith

-- The checked sum is returned exactly when the request lies in the day, the latency within its
-- bound, and their sum in the day.
pub effective_timestamp_iff :
    (t l e : ℕ)
    → (effective_timestamp t l ≡ ok e)
      ↔ ((e ≡ t + l) × (l ≤ max_latency_ns) × (t + l ≤ max_timestamp_ns))
unfolding effective_timestamp
effective_timestamp_iff t l e = (λ h. ground arith, λ h. ground arith)

pub schedule_cases :
    (k : ScheduledActionKind) (id t m l : ℕ) (s : LatencyScheduler)
    → Raises s (schedule k id t m l s)
      ⊎ ((effective_timestamp t l ≡ ok (t + l))
          × Beyond s.completed_market_timestamp_ns t
          × (schedule k id t m l s ≡ (
            ok (make_action k id t m (t + l) s),
            scheduled (make_action k id t m (t + l) s) s,
          )))
unfolding schedule effective_timestamp
schedule_cases k id t m l s = ground arith

pub before_cases :
    (t m : ℕ) (s : LatencyScheduler)
    → Raises s (actions_before_market t m s)
      ⊎ (Beyond (completed_before t s) t
          × Covers (completed_before t s) (some t)
          × (validate_market_key t m s ≡ ok tt)
          × (actions_before_market t m s ≡ (ok (pop_due t false s.heap).0, opened t m s)))
unfolding actions_before_market validate_market_key
before_cases t m s = ground arith

pub after_cases :
    (t : ℕ) (s : LatencyScheduler)
    → Raises s (actions_after_market_timestamp t s)
      ⊎ (Covers (some t) s.last_market_timestamp_ns
          × (actions_after_market_timestamp t s ≡ (ok (pop_due t true s.heap).0, completed t s)))
unfolding actions_after_market_timestamp
after_cases t s = ground arith
