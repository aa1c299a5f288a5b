-- ===== src/Predictions/Tests.antt =====
-- prediction_join.py on a stream of three predictions, with numbers for scores.
use itch_lab.Base.{◌≡◌, refl, ℕ, Bool, false, none, some, List, [], ◌∷◌, map, leb, arith}
use itch_lab.Base.Result.{ok, is_ok}
use itch_lab.Predictions.{
  PredictionKey, SignalPrediction, PredictionSelection, CausalPredictionJoin, initial_join,
  validate_prediction_key, validate_prediction_payload, validate_model_name, is_model_name,
}
use itch_lab.Predictions.Scan.{
  examine, scan, selected, selection_of, stale_diagnostic, validate_decision, conclude, select,
}
use itch_lab.Predictions.Causal.{Same, over, select_raised, select_causal}
use itch_lab.Predictions.Replay.{decide, selection_from, decide-selection_from}

abbrev key_at : ℕ → PredictionKey
key_at i = record {
  experiment_id = "exp";
  trading_date = 738000;
  symbol_id = 4;
  message_index = i;
  model_name = "prior";
}

abbrev predicted : ℕ → ℕ → ℕ → SignalPrediction ℕ
predicted i t s = record { key = key_at i; timestamp_ns = t; score = s }

abbrev small : ℕ → Bool
small s = leb s 1

abbrev predictions : List (SignalPrediction ℕ)
predictions = predicted 5 1000 1 ∷ predicted 9 2500 0 ∷ predicted 20 9000 1 ∷ []

abbrev join : CausalPredictionJoin ℕ
join = initial_join predictions "exp" 738000 4 "prior" 5000

-- The prediction of the message 9 is of a later time than the decision.
early_raises : is_ok (select small 0 12 2000 join).0 ≡ false
unfolding select validate_decision conclude scan examine validate_prediction_key
    validate_prediction_payload validate_model_name is_model_name
early_raises = refl

select_raised_example : Same small 0 join (select small 0 12 2000 join).1
select_raised_example = select_raised small 0 12 2000 join early_raises

select_causal_example :
    (select small 0 10 3000 join).0
    ≡ (select small 0 10 3000 (
        over small 0 join
          (predicted 5 1000 1 ∷ [])
          (predicted 9 2500 0 ∷ predicted 20 100 7 ∷ []))).0
select_causal_example =
    select_causal small 0 join (predicted 5 1000 1 ∷ [])
      (predicted 9 2500 0 ∷ predicted 20 100 7 ∷ []) 10 3000
      (predicted 5 1000 1 ∷ predicted 9 2500 0 ∷ []) (predicted 20 9000 1) (predicted 20 100 7) []
      [] refl refl refl (omega arith)

abbrev moments : List (ℕ × ℕ)
moments = (6, 2000) ∷ (12, 8000) ∷ []

abbrev answers : List (PredictionSelection ℕ)
answers =
    selection_of small 0 (predicted 5 1000 1) 2000 1 none
    ∷ selection_of small 0 (predicted 9 2500 0) 8000 0
        (some (stale_diagnostic small 0 12 (predicted 9 2500 0) join))
    ∷ []

answered : (decide small 0 moments join).0 ≡ ok answers
unfolding decide select validate_decision conclude scan examine validate_prediction_key
    validate_prediction_payload validate_model_name is_model_name selected
answered = refl

decide_example : answers ≡ map (selection_from small 0 join) moments
decide_example = decide-selection_from small 0 moments join answers answered
