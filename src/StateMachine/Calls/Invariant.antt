-- ===== src/StateMachine/Calls/Invariant.antt =====
-- state_machine.py: the invariant of the machine, kept by every call, also by one that raises.
use itch_lab.Base.{
  ◌≡◌, refl, subst, ◌<◌, ℕ, inl, inr, false, some, List, [], ◌∷◌, All, arith, nat_eq, Bool-cases,
}
use itch_lab.Base.Dict.{IsDict, insert-IsDict, Dict, lookup, insert, lookup-insert}
use itch_lab.Order.{terminal}
use itch_lab.Scheduler.{ScheduledAction}
use itch_lab.Scheduler.Invariant as Sched
use itch_lab.Scheduler.Invariant.{schedule-IsValid, init-IsValid}
use itch_lab.Scheduler.Order.{All-push}
use itch_lab.StateMachine.{OrderStateMachine, slot_eq, slot_of, initial}
use itch_lab.StateMachine.Book.{IsBook, empty-IsBook, update-IsBook, finish-IsBook, new-IsBook}
use itch_lab.StateMachine.Lifecycle.{Written, SameActions}
use itch_lab.StateMachine.Calls.{Call, call, Pushed, Added, call_outcome}

-- The pending actions are those that the machine has noted under their sequence numbers.
abbrev pub Noted : Dict ℕ ScheduledAction → List ScheduledAction → Type 0
Noted d = All (λ a. lookup a.sequence d ≡ some a)

pub record IsValid (s : OrderStateMachine) : Type 0 where
  pub scheduler : Sched.IsValid s.scheduler
  pub noted : Noted s.scheduled_actions s.scheduler.heap
  pub book : IsBook s.orders s.occupied_slots
  pub dict : IsDict s.orders

pub initial-IsValid : (a b : ℕ) → IsValid (initial a b)
initial-IsValid a b = record {
  scheduler = init-IsValid;
  noted = tt;
  book = empty-IsBook;
  dict = tt;
}

-- A note under a new number leaves the notes of the older actions.
Noted-insert :
    (n : ℕ) (a : ScheduledAction) (d : Dict ℕ ScheduledAction) (h : List ScheduledAction)
    → All (λ b. b.sequence < n) h
    → Noted d h
    → Noted (insert n a d) h
Noted-insert n a d [] f q = tt
Noted-insert n a d (b ∷ h) f q =
    (ground (arith, lookup-insert n b.sequence a d), Noted-insert n a d h f.1 q.1)

module _ (s s' : OrderStateMachine) (v : IsValid s) where
  pub Written-IsBook : Written s s' → IsBook s'.orders s'.occupied_slots
  Written-IsBook w =
      let slot : slot_of w.new ≡ slot_of w.old = ground (arith, w.evolves.request) in
      rw (w.orders, w.slots)
        (elim (Bool-cases (terminal w.new)) [
          | inl done ↦ rw done (
              finish-IsBook v.book w.new.simulated_order_id w.new w.valid refl w.old w.found
                w.evolves.live slot done)
          | inr live ↦ rw live (
              update-IsBook v.book w.new.simulated_order_id w.new w.valid refl w.old w.found
                w.evolves.live slot live)
        ])

  pub Written-IsDict : Written s s' → IsDict s'.orders
  Written-IsDict w = rw w.orders (insert-IsDict w.new.simulated_order_id w.new s.orders v.dict)

  Added-IsDict : Added s s' → IsDict s'.orders
  Added-IsDict a = rw a.orders (insert-IsDict a.new.simulated_order_id a.new s.orders v.dict)

  Pushed-Noted : Pushed s s' → Noted s'.scheduled_actions s'.scheduler.heap
  Pushed-Noted p =
      rw (p.noted, p.heap)
        (All-push _ p.action s.scheduler.heap
          (ground
            (arith, lookup-insert p.action.sequence p.action.sequence p.action s.scheduled_actions))
          (Noted-insert p.action.sequence p.action s.scheduled_actions s.scheduler.heap
            (rw p.numbered v.scheduler.fresh) v.noted))

  Pushed-scheduler : Pushed s s' → Sched.IsValid s'.scheduler
  Pushed-scheduler p =
      subst Sched.IsValid (ground (arith, p.pushed))
        (schedule-IsValid s.scheduler v.scheduler p.kind p.id p.requested p.index p.latency)

  Same-IsValid :
      SameActions s s' → IsBook s'.orders s'.occupied_slots → IsDict s'.orders → IsValid s'
  Same-IsValid a b d = record {
    scheduler = rw a.0 v.scheduler;
    noted = rw (a.0, a.1) v.noted;
    book = b;
    dict = d;
  }

  Pushed-IsValid : Pushed s s' → IsBook s'.orders s'.occupied_slots → IsDict s'.orders → IsValid s'
  Pushed-IsValid p b d = record {
    scheduler = Pushed-scheduler p;
    noted = Pushed-Noted p;
    book = b;
    dict = d;
  }

  Added-IsBook : (a : Added s s') → terminal a.new ≡ false → IsBook s'.orders s'.occupied_slots
  Added-IsBook a live =
      rw (a.orders, a.slots)
        (new-IsBook v.book a.new.simulated_order_id a.new a.valid refl a.absent a.free live)

pub call-IsValid : (c : Call) (s : OrderStateMachine) → IsValid s → IsValid (call c s).1
call-IsValid c s v = elim (call_outcome s v.book c) [
  | inl h ↦ rw h.1 v
  | inr (inl (w, inl a)) ↦ Same-IsValid s _ v a (Written-IsBook s _ v w) (Written-IsDict s _ v w)
  | inr (inl (w, inr p)) ↦ Pushed-IsValid s _ v p (Written-IsBook s _ v w) (Written-IsDict s _ v w)
  | inr (inr (a, p)) ↦ Pushed-IsValid s _ v p (Added-IsBook s _ v a a.live) (Added-IsDict s _ v a)
]

-- A run of any calls, in which each exception is caught.
unfoldable pub run : List Call → OrderStateMachine → OrderStateMachine
run [] s = s
run (c ∷ cs) s = run cs (call c s).1

-- Any sequence of calls, raising ones included, keeps the invariant: every stored order passes
-- validation under its own identifier, each live order holds the slot of its symbol and side, each
-- occupied slot belongs to a live order, no identifier stands twice, the scheduler is valid, and
-- every pending action is noted under its sequence number.
pub calls-IsValid : (cs : List Call) (s : OrderStateMachine) → IsValid s → IsValid (run cs s)
unfolding run
calls-IsValid [] s v = v
calls-IsValid (c ∷ cs) s v = calls-IsValid cs (call c s).1 (call-IsValid c s v)
