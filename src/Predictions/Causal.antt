-- ===== src/Predictions/Causal.antt =====
-- prediction_join.py: a selection sees the stream up to the first prediction after its decision, and
-- one that raises leaves the stream as it was.
use itch_lab.Base.{
  ◌≡◌, refl, sym, ◌∙◌, ap, ◌<◌, ℕ, Bool, true, false, Option, none, some, List, [], ◌∷◌, ◌++◌,
  arith, inl, inr,
}
use mathlib.Core.List.{append_assoc}
use itch_lab.Base.Result.{Result, ok, err, is_ok, Result-cases}
use itch_lab.Errors.{SimulationError}
use itch_lab.Predictions.{
  SignalPrediction, PredictionSelection, CausalPredictionJoin, validate_prediction_key,
}
use itch_lab.Predictions.Scan.{
  examine, Scanned, scan, restored, put_back, selected, validate_decision, conclude, select,
}

module _ {Score : Type 0} (bounded : Score → Bool) (zero_score : Score) where
  -- The loop over the stream itself, without buffer and source: the latest prediction, and what is
  -- left of the stream.
  unfoldable pub walk :
      CausalPredictionJoin Score
      → ℕ
      → ℕ
      → Option (SignalPrediction Score)
      → List (SignalPrediction Score)
      → Result (Option (SignalPrediction Score) × List (SignalPrediction Score))
  walk j i t latest [] = ok (latest, [])
  walk j i t latest (p ∷ ps) = elim (examine bounded zero_score j i t latest p) [
    | err e ↦ err e
    | ok true ↦ ok (latest, p ∷ ps)
    | ok false ↦ walk j i t (some p) ps
  ]

  -- What a scan has left of the stream.
  abbrev pub left :
      Scanned bounded zero_score
      → Result (Option (SignalPrediction Score) × List (SignalPrediction Score))
  left r = elim r.outcome [
    | err e ↦ err e
    | ok f ↦ ok (r.latest, restored bounded zero_score f r.buffer ++ r.source)
  ]

  pub scan-walk :
      (j : CausalPredictionJoin Score) (i t : ℕ) (latest : Option (SignalPrediction Score))
      (pulled buffer source : List (SignalPrediction Score))
      → let r = scan bounded zero_score j i t latest pulled buffer source in
        (r.pulled ++ (r.buffer ++ r.source) ≡ pulled ++ (buffer ++ source))
        × (left r ≡ walk j i t latest (buffer ++ source))
  unfolding scan walk
  scan-walk j i t latest pulled [] [] = (refl, refl)
  scan-walk j i t latest pulled (p ∷ b) s = ground (
    arith,
    append_assoc pulled (p ∷ []) (b ++ s),
    scan-walk j i t (some p) (pulled ++ p ∷ []) b s,
  )
  scan-walk j i t latest pulled [] (p ∷ s) =
      ground
        (arith, append_assoc pulled (p ∷ []) s, scan-walk j i t (some p) (pulled ++ p ∷ []) [] s)

  -- What the join has still to give.
  abbrev pub stream : CausalPredictionJoin Score → List (SignalPrediction Score)
  stream j = j.buffer ++ j.source

  -- The join with its stream parted in another way.
  abbrev pub Same : CausalPredictionJoin Score → CausalPredictionJoin Score → Type 0
  Same j k = (stream k ≡ stream j) × (k ≡ record j { buffer = k.buffer; source = k.source })

  conclude_raised :
      (i t : ℕ) (r : Scanned bounded zero_score) (j : CausalPredictionJoin Score)
      → is_ok (conclude bounded zero_score i t r j).0 ≡ false
      → (conclude bounded zero_score i t r j).1 ≡ put_back bounded zero_score r j
  unfolding conclude
  conclude_raised i t r j h = ground (arith, h)

  pub select_refused :
      (i t : ℕ) (j : CausalPredictionJoin Score) (e : SimulationError)
      → validate_decision bounded zero_score i t j ≡ err e
      → select bounded zero_score i t j ≡ (err e, j)
  unfolding select
  select_refused i t j e h = ground (arith, h)

  -- The scan of a selection.
  abbrev pub scanned : ℕ → ℕ → CausalPredictionJoin Score → Scanned bounded zero_score
  scanned i t j = scan bounded zero_score j i t j.latest [] j.buffer j.source

  pub select_ran :
      (i t : ℕ) (j : CausalPredictionJoin Score) (u : Unit {0})
      → validate_decision bounded zero_score i t j ≡ ok u
      → select bounded zero_score i t j ≡ conclude bounded zero_score i t (scanned i t j) j
  unfolding select
  select_ran i t j u h = ground (arith, h)

  -- A selection that raises leaves the stream and every other field as they were.
  pub select_raised :
      (i t : ℕ) (j : CausalPredictionJoin Score)
      → is_ok (select bounded zero_score i t j).0 ≡ false
      → Same j (select bounded zero_score i t j).1
  select_raised i t j h = elim (Result-cases (validate_decision bounded zero_score i t j)) [
    | inr (e, f) ↦ rw (select_refused i t j e f) (refl, refl)
    | inl (u, f) ↦
        let g = select_ran i t j u f in
        let r = scanned i t j in
        rw g (
          rw (conclude_raised i t r j (rw g at h)) (
            append_assoc r.pulled r.buffer r.source
                ∙ (scan-walk j i t j.latest [] j.buffer j.source).0,
            refl,
          ))
  ]

  validate_same_key :
      (j : CausalPredictionJoin Score) (latest : Option (SignalPrediction Score))
      (f f' : SignalPrediction Score)
      → f.key ≡ f'.key
      → validate_prediction_key j f latest ≡ validate_prediction_key j f' latest
  unfolding validate_prediction_key
  validate_same_key j latest f f' e =
      ap (λ k. validate_prediction_key j (record f { key = k }) latest) e

  examine_future :
      (j : CausalPredictionJoin Score) (i t : ℕ) (latest : Option (SignalPrediction Score))
      (f : SignalPrediction Score)
      → i < f.key.message_index
      → examine bounded zero_score j i t latest f
        ≡ elim (validate_prediction_key j f latest) [ err e ↦ err e | ok _ ↦ ok true ]
  unfolding examine
  examine_future j i t latest f h = ground (arith, h)

  -- The latest prediction of a walk.
  abbrev pub latest_of :
      Result (Option (SignalPrediction Score) × List (SignalPrediction Score))
      → Result (Option (SignalPrediction Score))
  latest_of r = elim r [ err e ↦ err e | ok (l, _) ↦ ok l ]

  walk_causal :
      (j : CausalPredictionJoin Score) (i t : ℕ) (latest : Option (SignalPrediction Score))
      (seen : List (SignalPrediction Score)) (f f' : SignalPrediction Score)
      (rest rest' : List (SignalPrediction Score))
      → f.key ≡ f'.key
      → i < f.key.message_index
      → latest_of (walk j i t latest (seen ++ f ∷ rest))
        ≡ latest_of (walk j i t latest (seen ++ f' ∷ rest'))
  unfolding walk
  walk_causal j i t latest [] f f' rest rest' e h = ground (
    arith,
    examine_future j i t latest f h,
    examine_future j i t latest f' (rw (← e) h),
    validate_same_key j latest f f' e,
  )
  walk_causal j i t latest (p ∷ seen) f f' rest rest' e h =
      ground (arith, walk_causal j i t (some p) seen f f' rest rest' e h)

  -- The selection that a walk leads to.
  abbrev pub answer :
      ℕ
      → ℕ
      → CausalPredictionJoin Score
      → Result (Option (SignalPrediction Score))
      → Result (PredictionSelection Score)
  answer i t j w = elim w [
    | err e ↦ err e
    | ok latest ↦ ok (selected bounded zero_score i t latest j).0
  ]

  selected_frame :
      (i t : ℕ) (latest l : Option (SignalPrediction Score)) (j : CausalPredictionJoin Score)
      (b s : List (SignalPrediction Score)) (n m : Option ℕ)
      → (selected bounded zero_score i t latest (record j {
        buffer = b;
        source = s;
        latest = l;
        last_decision_message_index = n;
        last_decision_timestamp_ns = m;
      })).0
        ≡ (selected bounded zero_score i t latest j).0
  unfolding selected
  selected_frame i t none l j b s n m = refl
  selected_frame i t (some p) l j b s n m = ground arith

  conclude-answer :
      (i t : ℕ) (r : Scanned bounded zero_score) (j : CausalPredictionJoin Score)
      → (conclude bounded zero_score i t r j).0 ≡ answer i t j (latest_of (left r))
  unfolding conclude
  conclude-answer i t r j = elim (Result-cases r.outcome) [
    | inr (e, f) ↦ ground (arith, f)
    | inl (f, e) ↦ ground (
      arith,
      e,
      selected_frame i t r.latest r.latest j (restored bounded zero_score f r.buffer) r.source
          (some i) (some t),
    )
  ]

  -- A decision that passes its guards is answered from the stream.
  pub select-answer :
      (i t : ℕ) (j : CausalPredictionJoin Score) (u : Unit {0})
      → validate_decision bounded zero_score i t j ≡ ok u
      → (select bounded zero_score i t j).0
        ≡ answer i t j (latest_of (walk j i t j.latest (stream j)))
  select-answer i t j u h = rw (select_ran i t j u h) (
      conclude-answer i t (scanned i t j) j
      ∙ ap (λ w. answer i t j (latest_of w)) (scan-walk j i t j.latest [] j.buffer j.source).1)

  module _ (j : CausalPredictionJoin Score) (b s : List (SignalPrediction Score)) where
    -- The join over another stream.
    abbrev pub over : CausalPredictionJoin Score
    over = record j { buffer = b; source = s }

    examine-over :
        (i t : ℕ) (latest : Option (SignalPrediction Score)) (p : SignalPrediction Score)
        → examine bounded zero_score over i t latest p ≡ examine bounded zero_score j i t latest p
    unfolding examine validate_prediction_key
    examine-over i t latest p = refl

    walk-over :
        (i t : ℕ) (latest : Option (SignalPrediction Score)) (ps : List (SignalPrediction Score))
        → walk over i t latest ps ≡ walk j i t latest ps
    unfolding walk
    walk-over i t latest [] = refl
    walk-over i t latest (p ∷ ps) =
        ground (arith, examine-over i t latest p, walk-over i t (some p) ps)

    decision_over :
        (i t : ℕ)
        → validate_decision bounded zero_score i t over ≡ validate_decision bounded zero_score i t j
    unfolding validate_decision
    decision_over i t = refl

    answer-over :
        (i t : ℕ) (w : Result (Option (SignalPrediction Score)))
        → answer i t over w ≡ answer i t j w
    answer-over i t (err e) = refl
    answer-over i t (ok l) = ap ok (
        selected_frame i t l j.latest j b s j.last_decision_message_index
          j.last_decision_timestamp_ns)

    -- No look-ahead: behind the key of the first prediction after the decision, nothing of the stream
    -- can change what a selection returns or raises.
    pub select_causal :
        (i t : ℕ) (seen : List (SignalPrediction Score)) (f f' : SignalPrediction Score)
        (rest rest' : List (SignalPrediction Score))
        → stream j ≡ seen ++ f ∷ rest
        → b ++ s ≡ seen ++ f' ∷ rest'
        → f.key ≡ f'.key
        → i < f.key.message_index
        → (select bounded zero_score i t j).0 ≡ (select bounded zero_score i t over).0
    select_causal i t seen f f' rest rest' e e' k h =
        elim (Result-cases (validate_decision bounded zero_score i t j)) [
          | inr (x, g) ↦
              ap (λ r. r.0) (select_refused i t j x g)
              ∙ sym (ap (λ r. r.0) (select_refused i t over x (decision_over i t ∙ g)))
          | inl (u, g) ↦
              select-answer i t j u g
              ∙ ap (λ w. answer i t j (latest_of (walk j i t j.latest w))) e
              ∙ ap (answer i t j) (walk_causal j i t j.latest seen f f' rest rest' k h)
              ∙ sym (
                  select-answer i t over u (decision_over i t ∙ g)
                  ∙ answer-over i t (latest_of (walk over i t j.latest (b ++ s)))
                  ∙ ap (λ w. answer i t j (latest_of w))
                      (walk-over i t j.latest (b ++ s) ∙ ap (walk j i t j.latest) e'))
        ]
