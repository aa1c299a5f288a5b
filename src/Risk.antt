-- ===== src/Risk.antt =====
-- python/src/itchlab_research/simulation/risk_limits.py: the decision on a proposed quote.
mod Tests
use itch_lab.Base.{
  ℕ, ◌≤◌, ◌≡◌, sym, ◌∙◌, ◌⊎◌, ◌↔◌, inl, inr, Bool, true, false, not, Option, none, some, ltb, arith,
  if◌then◌else◌,
}
use itch_lab.Base.Int.{ℤ, pos, negsuc, ◌+ℤ◌, ◌*ℤ◌, neg, abs}
use itch_lab.Base.Result.{Result, ok, ◌>>◌, raise_if}
use itch_lab.Errors.{ErrorCode, SimulationError}
use itch_lab.Order.{fail, valid_int, valid_side, max_uint64}
use itch_lab.Accounting.{max_int64, min_int64_ℤ, max_int64_ℤ, valid_ℤ}

pub data RiskDecisionReason : Type 0 where
  projected_inventory_limit : RiskDecisionReason

pub record InventoryRiskDecision : Type 0 where
  pub permitted : Bool
  pub current_inventory : ℤ
  pub projected_inventory : ℤ
  pub inventory_limit : ℕ
  pub risk_increasing : Bool
  pub reason : Option RiskDecisionReason

abbrev pub limit_error : SimulationError
limit_error = fail ErrorCode.inventory_limit none none

-- `InventoryRiskLimit`, by its limit.
unfoldable pub make_limit : ℕ → Result ℕ
make_limit inventory_limit = do
  raise_if (not (valid_int inventory_limit 1 max_int64)) limit_error
  ok inventory_limit

-- `-limit <= inventory <= limit`
abbrev pub within_limit : ℕ → ℤ → Bool
within_limit limit inventory = valid_ℤ inventory (neg (pos limit)) (pos limit)

-- The decision on a projected inventory.
abbrev pub decide : ℕ → ℤ → ℤ → InventoryRiskDecision
decide limit current projected = record {
  permitted = within_limit limit projected;
  current_inventory = current;
  projected_inventory = projected;
  inventory_limit = limit;
  risk_increasing = ltb (abs current) (abs projected);
  reason =
      if within_limit limit projected
      then none
      else some RiskDecisionReason.projected_inventory_limit;
}

unfoldable pub evaluate : ℕ → ℤ → ℤ → ℕ → Result InventoryRiskDecision
evaluate limit current_inventory side quantity = do
  raise_if (not (within_limit limit current_inventory)) limit_error
  raise_if (not (valid_side side)) limit_error
  raise_if (not (valid_int quantity 1 max_uint64)) limit_error
  raise_if (not (valid_ℤ (current_inventory +ℤ side *ℤ pos quantity) min_int64_ℤ max_int64_ℤ))
      limit_error
  ok (decide limit current_inventory (current_inventory +ℤ side *ℤ pos quantity))

-- The limit, on the absolute value.
pub within_limit_iff : (limit : ℕ) (v : ℤ) → (within_limit limit v ≡ true) ↔ (abs v ≤ limit)
within_limit_iff limit v = (λ h. ground arith, λ h. ground arith)

-- Between two inventories within the limit, all are within it.
abs-between_buy :
    (limit n m : ℕ) (c : ℤ)
    → abs c ≤ limit
    → abs (c +ℤ pos n) ≤ limit
    → m ≤ n
    → abs (c +ℤ pos m) ≤ limit
unfolding ◌+ℤ◌
abs-between_buy limit n m c h k le = ground arith

abs-between_sell :
    (limit n m : ℕ) (c : ℤ)
    → abs c ≤ limit
    → abs (c +ℤ neg (pos n)) ≤ limit
    → m ≤ n
    → abs (c +ℤ neg (pos m)) ≤ limit
unfolding ◌+ℤ◌
abs-between_sell limit n m c h k le = ground arith

buy : (n : ℕ) → pos 1 *ℤ pos n ≡ pos n
unfolding ◌*ℤ◌
buy n = ground arith

sell : (n : ℕ) → negsuc 0 *ℤ pos n ≡ neg (pos n)
unfolding ◌*ℤ◌
sell n = ground arith

abs-between :
    (limit n m : ℕ) (c side : ℤ)
    → (side ≡ pos 1) ⊎ (side ≡ negsuc 0)
    → abs c ≤ limit
    → abs (c +ℤ side *ℤ pos n) ≤ limit
    → m ≤ n
    → abs (c +ℤ side *ℤ pos m) ≤ limit
abs-between limit n m c side (inl e) h k le =
    rw (e, buy m) (abs-between_buy limit n m c h (rw (e, buy n) at k) le)
abs-between limit n m c side (inr e) h k le =
    rw (e, sell m) (abs-between_sell limit n m c h (rw (e, sell n) at k) le)

module _ (limit : ℕ) (c side : ℤ) (q : ℕ) {d : InventoryRiskDecision}
    (e : evaluate limit c side q ≡ ok d) where
  evaluate_ok :
      (within_limit limit c ≡ true)
      × ((side ≡ pos 1) ⊎ (side ≡ negsuc 0))
      × (d.permitted ≡ within_limit limit (c +ℤ side *ℤ pos q))
  unfolding evaluate
  evaluate_ok = ground (arith, e)

  -- A permitted quote stays within the limit whatever part of it fills.
  pub evaluate_partial :
      d.permitted ≡ true
      → (filled : ℕ) → filled ≤ q
      → within_limit limit (c +ℤ side *ℤ pos filled) ≡ true
  evaluate_partial p filled le =
      let (w, s, r) = evaluate_ok in
      (within_limit_iff limit _).1 (
        abs-between limit q filled c side s ((within_limit_iff limit c).0 w)
          ((within_limit_iff limit _).0 (sym r ∙ p)) le)

-- A quote for an inventory within the limit, on a side and of a valid quantity, whose complete fill
-- does not increase the absolute inventory: it is evaluated, permitted, and not called increasing.
pub evaluate_reducing :
    (limit : ℕ) (c side : ℤ) (q : ℕ)
    → limit ≤ max_int64
    → abs c ≤ limit
    → (side ≡ pos 1) ⊎ (side ≡ negsuc 0)
    → 1 ≤ q
    → q ≤ max_uint64
    → abs (c +ℤ side *ℤ pos q) ≤ abs c
    → evaluate limit c side q
      ≡ ok (record {
        permitted = true;
        current_inventory = c;
        projected_inventory = c +ℤ side *ℤ pos q;
        inventory_limit = limit;
        risk_increasing = false;
        reason = none;
      })
unfolding evaluate
evaluate_reducing limit c side q l h s q1 q2 r =
    let p = c +ℤ side *ℤ pos q in
    ground (
      arith,
      (within_limit_iff limit c).1 h,
      (within_limit_iff limit p).1 (omega (arith, r, h)),
      (within_limit_iff max_int64 p).1 (omega (arith, r, h, l)),
      s,
    )
