-- ===== src/Runner/Requests.antt =====
-- runner.py: `_refresh_quotes` keeps the state machine valid.
use itch_lab.Base.{
  ◌≡◌, sym, subst, if◌then◌else◌, ℕ, ◌+◌, Bool, true, false, Option, none, some, arith, nat_eq,
}
use itch_lab.Base.Int.{ℤ, pos, negsuc}
use itch_lab.Base.Result.{Result, ok, err}
use itch_lab.Base.Action.{Action, ◌>>=◌, ◌>>◌, pure, lift}
use itch_lab.Order.{SimulatedOrder}
use itch_lab.StateMachine.{OrderStateMachine, order, occupied_order}
use itch_lab.StateMachine.Methods.{submit, request_cancel}
use itch_lab.StateMachine.Calls.{Call, call}
use itch_lab.StateMachine.Calls.Invariant.{call-IsValid}
use itch_lab.StateMachine.Calls.Invariant as Machine
use itch_lab.Runner.{Decision, QuoteProposal}
use itch_lab.Runner.Quotes.{refresh_with, refresh_side, refresh_quotes, request_for, withdraw}

occupied_order_state :
    (k : ℕ) (side : ℤ) (s : OrderStateMachine) → (occupied_order (k, side) s).1 ≡ s
unfolding occupied_order order
occupied_order_state k side s = ground arith

submit-IsValid :
    (r : _) (s : OrderStateMachine) → Machine.IsValid s → Machine.IsValid (submit r s).1
submit-IsValid r s v = unfold call in call-IsValid (Call.submits r) s v

request_cancel-IsValid :
    (id t m : ℕ) (s : OrderStateMachine)
    → Machine.IsValid s
    → Machine.IsValid (request_cancel id t m s).1
request_cancel-IsValid id t m s v = unfold call in call-IsValid (Call.cancels id t m) s v

keeps_after :
    {S A B : Type 0} (P : S → Type 0) (f : A → Action S B) (r : Result A) (s : S)
    → P s
    → ((a : A) → P (f a s).1)
    → P ((lift r >>= f) s).1
keeps_after P f (ok a) s p k = k a
keeps_after P f (err e) s p k = p

-- A call that keeps `P`, and then the rest.
keeps_bind :
    {S A B : Type 0} (P : S → Type 0) (m : Action S A) (f : A → Action S B) (s : S)
    → P (m s).1
    → ((a : A) → P (f a (m s).1).1)
    → P ((m >>= f) s).1
keeps_bind P m f s p k = keeps_after P f (m s).0 (m s).1 p k

module _ (c : Decision) (side : ℤ) (p : Option QuoteProposal) (t m next : ℕ) (s : OrderStateMachine)
    (v : Machine.IsValid s) where
  withdraw-IsValid : (o : SimulatedOrder) → Machine.IsValid (withdraw o t m s).1
  unfolding withdraw
  withdraw-IsValid o =
      let w = request_cancel-IsValid o.simulated_order_id t m s v in
      keeps_bind Machine.IsValid (request_cancel o.simulated_order_id t m) (λ _. pure tt) s w λ _. w

  withdrawn-IsValid :
      (o : SimulatedOrder) (b : Bool)
      → Machine.IsValid ((if b then (do withdraw o t m; pure next) else pure next) s).1
  withdrawn-IsValid o false = v
  withdrawn-IsValid o true =
      let w = withdraw-IsValid o in
      keeps_bind Machine.IsValid (withdraw o t m) (λ _. pure next) s w λ _. w

refresh_with-IsValid :
    (c : Decision) (side : ℤ) (p : Option QuoteProposal) (t m next : ℕ) (o : Option SimulatedOrder)
    (s : OrderStateMachine)
    → Machine.IsValid s
    → Machine.IsValid (refresh_with c side p t m next o s).1
unfolding refresh_with
refresh_with-IsValid c side p t m next (some o) s v = withdrawn-IsValid c side p t m next s v o _
refresh_with-IsValid c side none t m next none s v = v
refresh_with-IsValid c side (some p) t m next none s v =
    let w = submit-IsValid (request_for c side p t m next) s v in
    keeps_bind Machine.IsValid (submit (request_for c side p t m next)) (λ _. pure (next + 1)) s w
      λ _. w

refresh_side-IsValid :
    (c : Decision) (side : ℤ) (p : Option QuoteProposal) (t m next : ℕ) (s : OrderStateMachine)
    → Machine.IsValid s
    → Machine.IsValid (refresh_side c side p t m next s).1
unfolding refresh_side
refresh_side-IsValid c side p t m next s v =
    let w = subst Machine.IsValid (sym (occupied_order_state c.symbol_id side s)) v in
    keeps_bind Machine.IsValid (occupied_order (c.symbol_id, side)) (refresh_with c side p t m next)
      s w λ o. refresh_with-IsValid c side p t m next o _ w

pub refresh_quotes-IsValid :
    (c : Decision) (t m next : ℕ) (s : OrderStateMachine)
    → Machine.IsValid s
    → Machine.IsValid (refresh_quotes c t m next s).1
unfolding refresh_quotes
refresh_quotes-IsValid c t m next s v =
    let w = refresh_side-IsValid c (pos 1) c.bid t m next s v in
    keeps_bind Machine.IsValid (refresh_side c (pos 1) c.bid t m next)
      (refresh_side c (negsuc 0) c.ask t m) s w
      λ n. refresh_side-IsValid c (negsuc 0) c.ask t m n _ w
