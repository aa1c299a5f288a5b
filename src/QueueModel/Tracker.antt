-- ===== src/QueueModel/Tracker.antt =====
-- queue_model.py: the known quantity ahead of a simulated order.
use itch_lab.Base.{
  ◌≡◌, refl, ℕ, ◌+◌, ◌≤◌, ◌-◌, ◌↔◌, inl, inr, ◌||◌, none, some, [], ◌∷◌, arith, ltb, eqb, nat_eq,
  Option-cases, if◌then◌else◌,
}
use itch_lab.Base.Int.{ℤ}
use itch_lab.Base.Dict.{Dict, lookup, insert, erase, IsDict}
use itch_lab.Base.Result.{Result, ok, err, ◌>>◌, raise_if}
use itch_lab.Errors.{ErrorCode, SimulationError}
use itch_lab.Order.{fail, max_uint64}

-- `_TrackedQueue`
pub record TrackedQueue : Type 0 where
  pub simulated_order_id : ℕ
  pub symbol_id : ℕ
  pub side : ℤ
  pub price4 : ℕ
  pub initial_quantity : ℕ
  pub ahead : Dict ℕ ℕ

abbrev pub queue_error : ℕ → SimulationError
queue_error id = fail ErrorCode.queue_state (some id) none

-- The loop of `_queue_total`.
unfoldable pub total_from : ℕ → Dict ℕ ℕ → ℕ → Result ℕ
total_from id [] total = ok total
total_from id ((_, quantity) ∷ d) total = do
  raise_if (ltb (max_uint64 - quantity) total || ltb max_uint64 quantity) (queue_error id)
  total_from id d (total + quantity)

-- `_queue_total`
unfoldable pub queue_total : TrackedQueue → Result ℕ
queue_total t = total_from t.simulated_order_id t.ahead 0

-- The quantities ahead when a reference gives up a part.
abbrev pub less_ahead : ℕ → ℕ → ℕ → Dict ℕ ℕ → Dict ℕ ℕ
less_ahead reference quantity tracked ahead =
    if eqb quantity tracked
    then erase reference ahead
    else insert reference (tracked - quantity) ahead

-- `_decrement_ahead`
unfoldable pub decrement_ahead : ℕ → ℕ → TrackedQueue → Result TrackedQueue
decrement_ahead reference quantity t = elim (lookup reference t.ahead) [
  | none ↦ err (queue_error t.simulated_order_id)
  | some tracked ↦
      if ltb tracked quantity
      then err (queue_error t.simulated_order_id)
      else ok (record t { ahead = less_ahead reference quantity tracked t.ahead })
]

-- The quantity of all references.
abbrev pub quantity_of : Dict ℕ ℕ → ℕ
quantity_of [] = 0
quantity_of ((_, q) ∷ d) = q + quantity_of d

pub total_from_iff :
    (id : ℕ) (d : Dict ℕ ℕ) (t n : ℕ)
    → t ≤ max_uint64
    → (total_from id d t ≡ ok n) ↔ ((n ≡ t + quantity_of d) × (t + quantity_of d ≤ max_uint64))
unfolding total_from
total_from_iff id [] t n h = (λ e. ground arith, λ e. ground arith)
total_from_iff id ((k, q) ∷ d) t n h = (
  λ e. ground (arith, total_from_iff id d (t + q) n),
  λ e. ground (arith, total_from_iff id d (t + q) n),
)

-- The total is returned exactly when the quantities add up to it and it is within 64 bits.
pub queue_total_iff :
    (t : TrackedQueue) (n : ℕ)
    → (queue_total t ≡ ok n) ↔ ((n ≡ quantity_of t.ahead) × (quantity_of t.ahead ≤ max_uint64))
unfolding queue_total
queue_total_iff t n =
    let f = total_from_iff t.simulated_order_id t.ahead 0 n (omega arith) in
    (λ h. ground (arith, f.0 h), λ h. f.1 (ground (arith, h)))

erase_absent : (k : ℕ) (d : Dict ℕ ℕ) → lookup k d ≡ none → quantity_of (erase k d) ≡ quantity_of d
unfolding lookup erase
erase_absent k [] e = refl
erase_absent k ((j, q) ∷ d) e = ground (arith, erase_absent k d)

quantity_of-erase :
    (k : ℕ) (d : Dict ℕ ℕ) (q : ℕ)
    → IsDict d
    → lookup k d ≡ some q
    → quantity_of (erase k d) + q ≡ quantity_of d
unfolding lookup erase
quantity_of-erase k [] q u e = absurd (cc)
quantity_of-erase k ((j, p) ∷ d) q u e =
    ground (arith, quantity_of-erase k d q u.1, erase_absent k d, u.0)

quantity_of-insert :
    (k : ℕ) (d : Dict ℕ ℕ) (q r : ℕ)
    → lookup k d ≡ some q
    → quantity_of (insert k r d) + q ≡ quantity_of d + r
unfolding lookup insert
quantity_of-insert k [] q r e = absurd (cc)
quantity_of-insert k ((j, p) ∷ d) q r e = ground (arith, quantity_of-insert k d q r)

-- Where no reference stands twice, what a reference ahead gives up comes off the quantity ahead
-- exactly.
pub decrement_ahead_ok :
    (reference quantity : ℕ) (t : TrackedQueue) {t' : TrackedQueue}
    → IsDict t.ahead
    → decrement_ahead reference quantity t ≡ ok t'
    → quantity_of t'.ahead + quantity ≡ quantity_of t.ahead
unfolding decrement_ahead
decrement_ahead_ok k q t u h = elim (Option-cases (lookup k t.ahead)) [
  | inl e ↦ absurd (ground (arith, e, h))
  | inr (p, e) ↦
      ground
        (arith, e, h, quantity_of-erase k t.ahead p u e, quantity_of-insert k t.ahead p (p - q) e)
]
