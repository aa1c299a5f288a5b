-- ===== src/Metrics/Drawdown.antt =====
-- metrics.py: the drawdown that one pass computes is the greatest fall of the curve.
use itch_lab.Base.{◌≡◌, ◌∙◌, sym, ap₂, ap, subst, ◌⊎◌, inl, inr, List, [], ◌∷◌, ◌++◌, arith, All}
use itch_lab.Base.Int.{ℤ, pos, pos_part, neg_part, ◌-ℤ◌, ◌≤ℤ◌, int_laws, -ℤ_parts}
use itch_lab.Base.Result.{ok, >>=-eq-ok}
use itch_lab.Accounting.{checked_int64}
use itch_lab.Accounting.Reconcile.{checked_int64_ok}
use itch_lab.Metrics.{drawdown_from, max_ℤ}

-- A value of the list with the property.
abbrev pub Some : (ℤ → Type 0) → List ℤ → Type 0
Some P [] = ⊥
Some P (x ∷ xs) = P x ⊎ Some P xs

-- The falls from a peak to the later values.
abbrev pub falls_from : ℤ → List ℤ → List ℤ
falls_from peak [] = []
falls_from peak (v ∷ vs) = (peak -ℤ v) ∷ falls_from peak vs

-- The fall from each value to each value at or after it.
abbrev pub falls : List ℤ → List ℤ
falls [] = []
falls (v ∷ vs) = falls_from v (v ∷ vs) ++ falls vs

-- The greatest fall of a curve, which no fall exceeds and some fall attains.
pub record IsDrawdown (curve : List ℤ) (d : ℤ) : Type 0 where
  pub bounds : All (λ x. x ≤ℤ d) (falls curve)
  pub attained : Some (λ x. x ≡ d) (falls curve)

All-append : (P : ℤ → Type 0) (xs ys : List ℤ) → All P xs → All P ys → All P (xs ++ ys)
All-append P [] ys a b = b
All-append P (x ∷ xs) ys (p, a) b = (p, All-append P xs ys a b)

Some-left : (P : ℤ → Type 0) (xs ys : List ℤ) → Some P xs → Some P (xs ++ ys)
Some-left P [] ys a = elim a [ ]
Some-left P (x ∷ xs) ys (inl p) = inl p
Some-left P (x ∷ xs) ys (inr a) = inr (Some-left P xs ys a)

Some-right : (P : ℤ → Type 0) (xs ys : List ℤ) → Some P ys → Some P (xs ++ ys)
Some-right P [] ys a = a
Some-right P (x ∷ xs) ys a = inr (Some-right P xs ys a)

max_cases : (a b : ℤ) → ((max_ℤ a b ≡ a) × (b ≤ℤ a)) ⊎ ((max_ℤ a b ≡ b) × (a ≤ℤ b))
max_cases a b = ground arith

lower_falls :
    (p q d : ℤ) (vs : List ℤ)
    → p ≤ℤ q
    → All (λ x. x ≤ℤ d) (falls_from q vs)
    → All (λ x. x ≤ℤ d) (falls_from p vs)
lower_falls p q d [] h a = tt
lower_falls p q d (v ∷ vs) h (b, a) =
    (omega (arith, -ℤ_parts p v, -ℤ_parts q v), lower_falls p q d vs h a)

-- What the rest of the curve adds to the drawdown so far: `d` is the greatest of the drawdown
-- `m`, the falls from the peak `p`, and the falls of the rest.
record IsGreatest (p m : ℤ) (vs : List ℤ) (d : ℤ) : Type 0 where
  pub above : m ≤ℤ d
  pub from_peak : All (λ x. x ≤ℤ d) (falls_from p vs)
  pub within : All (λ x. x ≤ℤ d) (falls vs)
  pub met : (m ≡ d) ⊎ (Some (λ x. x ≡ d) (falls_from p vs) ⊎ Some (λ x. x ≡ d) (falls vs))

module _ (p m v d : ℤ) (vs : List ℤ) where
  abbrev fall : ℤ
  fall = max_ℤ p v -ℤ v

  abbrev peak : ℤ
  peak = max_ℤ p v

  peak_above : p ≤ℤ peak
  peak_above = ground arith

  value_below : v ≤ℤ peak
  value_below = ground arith

  fall_above : (x : ℤ) → max_ℤ m x ≤ℤ d → (m ≤ℤ d) × (x ≤ℤ d)
  fall_above x h = ground arith

  met_before :
      (max_ℤ m fall ≡ d) ⊎ (Some (λ x. x ≡ d) (falls_from peak vs) ⊎ Some (λ x. x ≡ d) (falls vs))
      → (m ≡ d) ⊎ (Some (λ x. x ≡ d) (falls_from p (v ∷ vs)) ⊎ Some (λ x. x ≡ d) (falls (v ∷ vs)))
  met_before (inl h) = elim (max_cases m fall) [
    | inl (e, _) ↦ inl (sym e ∙ h)
    | inr (e, _) ↦ elim (max_cases p v) [
      | inl (e', _) ↦ inr (inl (inl (ap (λ x. x -ℤ v) (sym e') ∙ sym e ∙ h)))
      | inr (e', _) ↦ inr (inr (inl (ap (λ x. x -ℤ v) (sym e') ∙ sym e ∙ h)))
    ]
  ]
  met_before (inr (inl h)) = elim (max_cases p v) [
    | inl (e, _) ↦ inr (inl (inr (subst (λ q. Some (λ x. x ≡ d) (falls_from q vs)) e h)))
    | inr (e, _) ↦ inr (
        inr (
          inr (
            Some-left (λ x. x ≡ d) (falls_from v vs) (falls vs)
              (subst (λ q. Some (λ x. x ≡ d) (falls_from q vs)) e h))))
  ]
  met_before (inr (inr h)) =
      inr (inr (inr (Some-right (λ x. x ≡ d) (falls_from v vs) (falls vs) h)))

  IsGreatest-step : IsGreatest peak (max_ℤ m fall) vs d → IsGreatest p m (v ∷ vs) d
  IsGreatest-step g =
      let (a, b) = fall_above fall g.above in
      record {
        above = a;
        from_peak = (
          omega (arith, peak_above, b, -ℤ_parts p v, -ℤ_parts peak v),
          lower_falls p peak d vs peak_above g.from_peak,
        );
        within = (
          omega (arith, value_below, b, -ℤ_parts v v, -ℤ_parts peak v),
          All-append _ (falls_from v vs) (falls vs)
              (lower_falls v peak d vs value_below g.from_peak) g.within,
        );
        met = met_before g.met;
      }

drawdown_from_ok : (p m d : ℤ) (vs : List ℤ) → drawdown_from p m vs ≡ ok d → IsGreatest p m vs d
unfolding drawdown_from
drawdown_from_ok p m d [] h = record {
  above = ground arith;
  from_peak = tt;
  within = tt;
  met = inl (ground arith);
}
drawdown_from_ok p m d (v ∷ vs) h =
    let (c, e, f) = >>=-eq-ok (checked_int64 v) _ h in
    let (x, e', g) = >>=-eq-ok (checked_int64 (max_ℤ p c -ℤ c)) _ f in
    let i : x ≡ max_ℤ p v -ℤ v =
      checked_int64_ok _ e' ∙ ap (λ y. max_ℤ p y -ℤ y) (checked_int64_ok v e) in
    IsGreatest-step p m v d vs (
      drawdown_from_ok (max_ℤ p v) (max_ℤ m (max_ℤ p v -ℤ v)) d vs (
        ap₂ (λ y z. drawdown_from (max_ℤ p y) (max_ℤ m z) vs) (sym (checked_int64_ok v e)) (sym i)
        ∙ g))

-- The drawdown that the loop returns is the greatest fall of the curve that starts from zero.
pub drawdown_from-IsDrawdown :
    (d : ℤ) (equity : List ℤ)
    → drawdown_from (pos 0) (pos 0) equity ≡ ok d
    → IsDrawdown (pos 0 ∷ equity) d
drawdown_from-IsDrawdown d equity h =
    let g = drawdown_from_ok (pos 0) (pos 0) d equity h in
    record {
      bounds = (
        omega (arith, g.above, -ℤ_parts (pos 0) (pos 0)),
        All-append _ (falls_from (pos 0) equity) (falls equity) g.from_peak g.within,
      );
      attained = elim g.met [
        | inl e ↦ inl (omega (int_laws, ap pos_part e, ap neg_part e))
        | inr (inl a) ↦ inr (Some-left _ (falls_from (pos 0) equity) (falls equity) a)
        | inr (inr a) ↦ inr (Some-right _ (falls_from (pos 0) equity) (falls equity) a)
      ];
    }
