-- ===== src/StateMachine/Actions/Run.antt =====
-- state_machine.py: the loop over the due actions, where any of them may raise.
use itch_lab.Base.{
  ◌≡◌, sym, subst, ◌⊎◌, ℕ, inl, inr, true, false, Option, some, List, [], ◌∷◌, ◌++◌, All, arith,
  nat_eq,
}
use itch_lab.Base.Dict.{Dict, lookup, erase, lookup-erase}
use itch_lab.Scheduler.{ScheduledAction, earlier, pop_due, opened, completed}
use itch_lab.Scheduler.Order.{IsSorted}
use itch_lab.Scheduler.Delivery.{append-pop_due}
use itch_lab.Scheduler.Invariant.{
  actions_before_market-IsValid, actions_after_market_timestamp-IsValid,
}
use itch_lab.Scheduler.Invariant as Sched
use itch_lab.StateMachine.{OrderStateMachine}
use itch_lab.StateMachine.Lifecycle.{Written, SameActions}
use itch_lab.StateMachine.Calls.Invariant.{IsValid, Noted, Written-IsBook, Written-IsDict}
use itch_lab.StateMachine.Calls.Descent.{Keeps, Keeps-refl, Keeps-trans, Written-Keeps}
use itch_lab.StateMachine.Actions.{Resolver, forget, apply_action, apply_actions}
use itch_lab.StateMachine.Actions.Invariant.{Acts, apply_action-Acts}

-- The machine while the actions `out`, taken off the heap, are still to be applied.
pub record Holding (out : List ScheduledAction) (s : OrderStateMachine) : Type 0 where
  pub valid : IsValid s
  pub noted : Noted s.scheduled_actions (out ++ s.scheduler.heap)
  pub sorted : IsSorted (out ++ s.scheduler.heap)

All-drop :
    (P : ScheduledAction → Type 0) (xs ys : List ScheduledAction) → All P (xs ++ ys) → All P ys
All-drop P [] ys h = h
All-drop P (x ∷ xs) ys h = All-drop P xs ys h.1

-- The notes of later actions stay when an action is forgotten, since their numbers differ.
Noted-erase :
    (a : ScheduledAction) (d : Dict ℕ ScheduledAction) (h : List ScheduledAction)
    → lookup a.sequence d ≡ some a
    → All (λ b. earlier a b ≡ true) h
    → Noted d h
    → Noted (erase a.sequence d) h
Noted-erase a d [] e l n = tt
Noted-erase a d (b ∷ h) e l n =
    (ground (arith, lookup-erase a.sequence b.sequence d), Noted-erase a d h e l.1 n.1)

module _ (a : ScheduledAction) (out : List ScheduledAction) (s : OrderStateMachine)
    (h : Holding (a ∷ out) s) where
  later : Noted (erase a.sequence s.scheduled_actions) (out ++ s.scheduler.heap)
  later = Noted-erase a s.scheduled_actions _ h.noted.0 h.sorted.0 h.noted.1

  skip-Holding : Holding out s
  skip-Holding = record { valid = h.valid; noted = h.noted.1; sorted = h.sorted.1 }

  forget-Holding : Holding out (forget a s)
  forget-Holding = record {
    valid = record {
      scheduler = h.valid.scheduler;
      noted = All-drop _ out s.scheduler.heap later;
      book = h.valid.book;
      dict = h.valid.dict;
    };
    noted = later;
    sorted = h.sorted.1;
  }

  Written-Holding :
      (u : OrderStateMachine) → Written s u → SameActions s u → Holding out (forget a u)
  Written-Holding u w same = record {
    valid = record {
      scheduler = rw same.0 h.valid.scheduler;
      noted = rw (same.0, same.1) (All-drop _ out s.scheduler.heap later);
      book = Written-IsBook s u h.valid w;
      dict = Written-IsDict s u h.valid w;
    };
    noted = rw (same.0, same.1) later;
    sorted = rw same.0 h.sorted.1;
  }

  Acts-Holding : (m : OrderStateMachine) → Acts a s m ⊎ (m ≡ forget a s) → Holding out m × Keeps s m
  Acts-Holding m (inl (inl e)) = rw e (skip-Holding, Keeps-refl s)
  Acts-Holding m (inl (inr (u, w, same, e))) = rw e (Written-Holding u w same, Written-Keeps s u w)
  Acts-Holding m (inr e) = rw e (forget-Holding, Keeps-refl s)

module _ {Q : Type 0} (resolver : Option (Resolver Q)) where
  apply_actions_state :
      (a : ScheduledAction) (rest : List ScheduledAction) (s : OrderStateMachine × Q)
      → ((apply_actions (a ∷ rest) resolver s).1 ≡ (apply_action a resolver s).1)
        ⊎ ((apply_actions (a ∷ rest) resolver s).1
            ≡ (apply_actions rest resolver (apply_action a resolver s).1).1)
  unfolding apply_actions
  apply_actions_state a rest s = ground arith

  pub apply_actions-IsValid :
      (out : List ScheduledAction) (s : OrderStateMachine) (q : Q)
      → Holding out s
      → IsValid (apply_actions out resolver (s, q)).1.0
        × Keeps s (apply_actions out resolver (s, q)).1.0
  apply_actions-IsValid [] s q h = unfold apply_actions in (h.valid, Keeps-refl s)
  apply_actions-IsValid (a ∷ rest) s q h =
      let (m, q') = (apply_action a resolver (s, q)).1 in
      let (g, k) = Acts-Holding a rest s h m (apply_action-Acts a resolver s q h.valid.book) in
      let (v, k') = apply_actions-IsValid rest m q' g in
      elim (apply_actions_state a rest (s, q)) [
        | inl e ↦ rw e (g.valid, k)
        | inr e ↦ rw e (v, Keeps-trans s m (apply_actions rest resolver (m, q')).1.0 k k')
      ]

-- The machine when the scheduler has handed over the due actions.
pub opened-Holding :
    (s : OrderStateMachine) (t m : ℕ)
    → IsValid s
    → Sched.IsValid (opened t m s.scheduler)
    → Holding (pop_due t false s.scheduler.heap).0 (record s { scheduler = opened t m s.scheduler })
opened-Holding s t m v w =
    let e = append-pop_due t false s.scheduler.heap in
    let noted = subst (Noted s.scheduled_actions) (sym e) v.noted in
    record {
      valid = record {
        scheduler = w;
        noted = All-drop _ (pop_due t false s.scheduler.heap).0 _ noted;
        book = v.book;
        dict = v.dict;
      };
      noted = noted;
      sorted = subst IsSorted (sym e) v.scheduler.sorted;
    }

pub completed-Holding :
    (s : OrderStateMachine) (t : ℕ)
    → IsValid s
    → Sched.IsValid (completed t s.scheduler)
    → Holding (pop_due t true s.scheduler.heap).0 (record s { scheduler = completed t s.scheduler })
completed-Holding s t v w =
    let e = append-pop_due t true s.scheduler.heap in
    let noted = subst (Noted s.scheduled_actions) (sym e) v.noted in
    record {
      valid = record {
        scheduler = w;
        noted = All-drop _ (pop_due t true s.scheduler.heap).0 _ noted;
        book = v.book;
        dict = v.dict;
      };
      noted = noted;
      sorted = subst IsSorted (sym e) v.scheduler.sorted;
    }
