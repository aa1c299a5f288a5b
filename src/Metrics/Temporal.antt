-- ===== src/Metrics/Temporal.antt =====
-- metrics.py: the metrics of the day's equity, trades and fills.
use itch_lab.Base.{◌≡◌, ◌∙◌, ap, subst, ℕ, Option, none, some, List, [], ◌∷◌, arith, All, length}
use itch_lab.Base.Int.{ℤ, pos, ◌+ℤ◌, ◌≤ℤ◌, ltb_ℤ}
use itch_lab.Base.Result.{ok, raise_if, >>=-eq-ok}
use itch_lab.Accounting.{cost_error}
use itch_lab.Accounting.Reconcile.{checked_int64_ok, sum_from}
use itch_lab.Metrics.{
  TemporalMetrics, checked_add, drawdown_from, turnover_from, observed, adverse_from, adverse_total,
  temporal_metrics,
}
use itch_lab.Metrics.Drawdown.{IsDrawdown, drawdown_from-IsDrawdown}

turnover_from_ok :
    (t x : ℤ) (vs : List ℤ)
    → turnover_from t vs ≡ ok x
    → (x ≡ sum_from t vs) × All (λ v. pos 0 ≤ℤ v) vs
unfolding turnover_from
turnover_from_ok t x [] h = (ground arith, tt)
turnover_from_ok t x (v ∷ vs) h =
    let (_, c, f) = >>=-eq-ok (raise_if (ltb_ℤ v (pos 0)) cost_error) _ h in
    let (u, e, g) = >>=-eq-ok (checked_add t v) _ f in
    let (i, a) = turnover_from_ok u x vs g in
    let j : u ≡ t +ℤ v = unfold checked_add in checked_int64_ok (t +ℤ v) e in
    (i ∙ ap (λ y. sum_from y vs) j, (ground arith, a))

adverse_from_ok : (t x : ℤ) (vs : List ℤ) → adverse_from t vs ≡ ok x → x ≡ sum_from t vs
unfolding adverse_from
adverse_from_ok t x [] h = ground arith
adverse_from_ok t x (v ∷ vs) h =
    let (u, e, g) = >>=-eq-ok (checked_add t v) _ h in
    let j : u ≡ t +ℤ v = unfold checked_add in checked_int64_ok (t +ℤ v) e in
    adverse_from_ok u x vs g ∙ ap (λ y. sum_from y vs) j

-- The sum of the values, if there are any.
abbrev pub sum_of_some : List ℤ → Option ℤ
sum_of_some [] = none
sum_of_some (v ∷ vs) = some (sum_from (pos 0) (v ∷ vs))

adverse_total_ok : (vs : List ℤ) (o : Option ℤ) → adverse_total vs ≡ ok o → o ≡ sum_of_some vs
unfolding adverse_total
adverse_total_ok [] o h = ground arith
adverse_total_ok (v ∷ vs) o h =
    let (x, e, g) = >>=-eq-ok (adverse_from (pos 0) (v ∷ vs)) _ h in
    ground (arith, adverse_from_ok (pos 0) x (v ∷ vs) e)

module _ {Coverage : Type 0} (no_coverage : Coverage) (quotient : ℕ → ℕ → Coverage)
    (equity notionals : List ℤ) (adverse : List (Option ℤ)) (t : TemporalMetrics Coverage) where
  pub record IsTemporal : Type 0 where
    pub drawdown : IsDrawdown (pos 0 ∷ equity) t.max_drawdown_microusd
    pub turnover : t.turnover_microusd ≡ sum_from (pos 0) notionals
    pub charged : All (λ v. pos 0 ≤ℤ v) notionals
    pub adverse_selection : t.adverse_selection_100ms_microusd ≡ sum_of_some (observed adverse)
    pub observations : t.adverse_selection_observation_count ≡ length (observed adverse)
    pub eligible : t.adverse_selection_eligible_fill_count ≡ length adverse

  -- The temporal metrics that are returned: the drawdown is the greatest fall of the equity curve
  -- from zero, which no value exceeds and one attains; the turnover is the sum of the notionals,
  -- none of which is negative; the adverse selection is the sum of the values observed, if there
  -- are any; and the counts are those of the observed values and of all.
  pub temporal_metrics-IsTemporal :
      temporal_metrics no_coverage quotient equity notionals adverse ≡ ok t → IsTemporal
  unfolding temporal_metrics
  temporal_metrics-IsTemporal h =
      let (d, e, f) = >>=-eq-ok (drawdown_from (pos 0) (pos 0) equity) _ h in
      let (n, e', f') = >>=-eq-ok (turnover_from (pos 0) notionals) _ f in
      let (a, e'', g) = >>=-eq-ok (adverse_total (observed adverse)) _ f' in
      let (i, c) = turnover_from_ok (pos 0) n notionals e' in
      record {
        drawdown =
            subst (IsDrawdown (pos 0 ∷ equity)) (ground (arith, g))
              (drawdown_from-IsDrawdown d equity e);
        turnover = ground (arith, g, i);
        charged = c;
        adverse_selection = ground (arith, g, adverse_total_ok (observed adverse) a e'');
        observations = ground (arith, g);
        eligible = ground (arith, g);
      }
