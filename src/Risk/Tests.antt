-- ===== src/Risk/Tests.antt =====
-- A buy of 100 shares on a holding of 900 under a limit of 1000.
use itch_lab.Base.{◌≡◌, refl, true, false, none, inr, arith}
use itch_lab.Base.Int.{pos, negsuc, ◌+ℤ◌, ◌*ℤ◌}
use itch_lab.Base.Result.{ok}
use itch_lab.Risk.{decide, evaluate, evaluate_partial, evaluate_reducing, within_limit}

bought : evaluate 1000 (pos 900) (pos 1) 100 ≡ ok (decide 1000 (pos 900) (pos 1000))
unfolding evaluate ◌*ℤ◌ ◌+ℤ◌
bought = refl

evaluate_partial_example : within_limit 1000 (pos 900 +ℤ pos 1 *ℤ pos 40) ≡ true
evaluate_partial_example = evaluate_partial 1000 (pos 900) (pos 1) 100 bought refl 40 (omega arith)

evaluate_reducing_example :
    evaluate 1000 (pos 900) (negsuc 0) 1700
    ≡ ok (record {
      permitted = true;
      current_inventory = pos 900;
      projected_inventory = pos 900 +ℤ negsuc 0 *ℤ pos 1700;
      inventory_limit = 1000;
      risk_increasing = false;
      reason = none;
    })
unfolding ◌*ℤ◌ ◌+ℤ◌
evaluate_reducing_example =
    evaluate_reducing 1000 (pos 900) (negsuc 0) 1700 (omega arith) (omega arith) (inr refl)
      (omega arith) (omega arith) (omega arith)
