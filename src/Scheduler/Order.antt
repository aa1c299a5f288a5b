-- ===== src/Scheduler/Order.antt =====
-- scheduler.py: the heap as a list sorted by (effective timestamp, sequence).
use itch_lab.Base.{ℕ, ◌<◌, ◌≡◌, Bool, true, List, [], ◌∷◌, All, arith}
use itch_lab.Scheduler.{ScheduledAction, earlier, push, pop_due}

-- Strictly sorted: each entry is earlier than all behind it.
abbrev pub IsSorted : List ScheduledAction → Type 0
IsSorted [] = Unit {0}
IsSorted (a ∷ h) = All (λ b. earlier a b ≡ true) h × IsSorted h

module _ (P : ScheduledAction → Type 0) where
  pub All-push : (a : ScheduledAction) (h : List ScheduledAction) → P a → All P h → All P (push a h)
  unfolding push
  All-push a [] p q = (p, tt)
  All-push a (b ∷ h) p q = ground (arith, All-push a h p)

  pub All-pop_due :
      (t : ℕ) (i : Bool) (h : List ScheduledAction)
      → All P h
      → All P (pop_due t i h).0 × All P (pop_due t i h).1
  unfolding pop_due
  All-pop_due t i [] q = (tt, tt)
  All-pop_due t i (a ∷ h) q = ground (arith, All-pop_due t i h q.1)

-- What stands behind a later entry stands behind an earlier one.
All-earlier :
    (a b : ScheduledAction) (h : List ScheduledAction)
    → earlier a b ≡ true
    → All (λ c. earlier b c ≡ true) h
    → All (λ c. earlier a c ≡ true) h
All-earlier a b [] e q = tt
All-earlier a b (c ∷ h) e q = (ground arith, All-earlier a b h e q.1)

-- A push of an entry with a new sequence number keeps the heap sorted.
pub push-IsSorted :
    (a : ScheduledAction) (h : List ScheduledAction)
    → All (λ b. b.sequence < a.sequence) h
    → IsSorted h
    → IsSorted (push a h)
unfolding push
push-IsSorted a [] fresh s = (tt, tt)
push-IsSorted a (b ∷ h) fresh s = ground (
  arith,
  push-IsSorted a h fresh.1 s.1,
  All-earlier a b h,
  All-push (λ c. earlier b c ≡ true) a h,
)

pub pop_due-IsSorted :
    (t : ℕ) (i : Bool) (h : List ScheduledAction) → IsSorted h → IsSorted (pop_due t i h).1
unfolding pop_due
pop_due-IsSorted t i [] s = tt
pop_due-IsSorted t i (a ∷ h) s = ground (arith, pop_due-IsSorted t i h s.1)
