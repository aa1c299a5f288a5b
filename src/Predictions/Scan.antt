-- ===== src/Predictions/Scan.antt =====
-- prediction_join.py: `select`, and the loop that pulls the predictions up to a decision.
use itch_lab.Base.{
  ℕ, ◌-◌, Bool, true, false, ◌||◌, not, Option, none, some, List, [], ◌∷◌, ◌++◌, ltb, if◌then◌else◌,
}
use itch_lab.Base.Result.{Result, ok, err, ◌>>◌, raise_if}
use itch_lab.Base.Action.{Action}
use itch_lab.Errors.{ErrorCode}
use itch_lab.Order.{valid_int, max_uint64, max_timestamp_ns}
use itch_lab.Predictions.{
  PredictionDiagnosticCode, PredictionDiagnostic, SignalPrediction, PredictionSelection,
  CausalPredictionJoin, prediction_error, validate_prediction_key, validate_prediction_payload,
}

module _ {Score : Type 0} (bounded : Score → Bool) (zero_score : Score) where
  -- The loop's body on a prediction: true if it lies in the future of the decision.
  unfoldable pub examine :
      CausalPredictionJoin Score
      → ℕ
      → ℕ
      → Option (SignalPrediction Score)
      → SignalPrediction Score
      → Result Bool
  examine j decision_message_index timestamp_ns previous p = do
    validate_prediction_key j p previous
    if ltb decision_message_index p.key.message_index then ok true else (do
      validate_prediction_payload bounded p previous
      raise_if (ltb timestamp_ns p.timestamp_ns)
          (prediction_error ErrorCode.leakage_guard (some p.key.message_index))
      ok false)

  -- Where the loop stops: `outcome` is the future prediction that it met, or the error.
  pub record Scanned : Type 0 where
    pub outcome : Result (Option (SignalPrediction Score))
    pub latest : Option (SignalPrediction Score)
    pub pulled : List (SignalPrediction Score)
    pub buffer : List (SignalPrediction Score)
    pub source : List (SignalPrediction Score)

  -- The loop of `select`: `_take` empties the buffer before it asks the source. `latest` and
  -- `previous` of the source are one value throughout.
  unfoldable pub scan :
      CausalPredictionJoin Score
      → ℕ
      → ℕ
      → Option (SignalPrediction Score)
      → List (SignalPrediction Score)
      → List (SignalPrediction Score)
      → List (SignalPrediction Score)
      → Scanned
  scan j index time latest pulled (p ∷ buffer) source = elim (examine j index time latest p) [
    | err e ↦ record {
      outcome = err e;
      latest = latest;
      pulled = pulled ++ p ∷ [];
      buffer = buffer;
      source = source;
    }
    | ok true ↦ record {
      outcome = ok (some p);
      latest = latest;
      pulled = pulled ++ p ∷ [];
      buffer = buffer;
      source = source;
    }
    | ok false ↦ scan j index time (some p) (pulled ++ p ∷ []) buffer source
  ]
  scan j index time latest pulled [] (p ∷ source) = elim (examine j index time latest p) [
    | err e ↦ record {
      outcome = err e;
      latest = latest;
      pulled = pulled ++ p ∷ [];
      buffer = [];
      source = source;
    }
    | ok true ↦ record {
      outcome = ok (some p);
      latest = latest;
      pulled = pulled ++ p ∷ [];
      buffer = [];
      source = source;
    }
    | ok false ↦ scan j index time (some p) (pulled ++ p ∷ []) [] source
  ]
  scan j index time latest pulled [] [] = record {
    outcome = ok none;
    latest = latest;
    pulled = pulled;
    buffer = [];
    source = [];
  }

  abbrev pub restored :
      Option (SignalPrediction Score)
      → List (SignalPrediction Score)
      → List (SignalPrediction Score)
  restored none buffer = buffer
  restored (some p) buffer = p ∷ buffer

  -- The state after a scan that raised, and after one that did not.
  abbrev pub put_back : Scanned → CausalPredictionJoin Score → CausalPredictionJoin Score
  put_back r j = record j { source = r.source; buffer = r.pulled ++ r.buffer }

  abbrev pub advanced :
      Scanned
      → Option (SignalPrediction Score)
      → ℕ
      → ℕ
      → CausalPredictionJoin Score
      → CausalPredictionJoin Score
  advanced r future index time j = record j {
    source = r.source;
    buffer = restored future r.buffer;
    latest = r.latest;
    last_decision_message_index = some index;
    last_decision_timestamp_ns = some time;
  }

  abbrev pub missing_diagnostic : ℕ → CausalPredictionJoin Score → PredictionDiagnostic
  missing_diagnostic index j = record {
    code = PredictionDiagnosticCode.missing;
    decision_message_index = index;
    symbol_id = j.symbol_id;
    prediction_message_index = none;
    reason = "no_prediction_at_or_before_decision";
  }

  abbrev pub stale_diagnostic :
      ℕ → SignalPrediction Score → CausalPredictionJoin Score → PredictionDiagnostic
  stale_diagnostic index p j = record {
    code = PredictionDiagnosticCode.stale;
    decision_message_index = index;
    symbol_id = j.symbol_id;
    prediction_message_index = some p.key.message_index;
    reason = "prediction_age_exceeded";
  }

  abbrev pub noting : PredictionDiagnostic → CausalPredictionJoin Score → CausalPredictionJoin Score
  noting d j = record j { diagnostics = j.diagnostics ++ d ∷ [] }

  abbrev pub selection_of :
      SignalPrediction Score → ℕ → Score → Option PredictionDiagnostic → PredictionSelection Score
  selection_of p time effective diagnostic = record {
    key = some p.key;
    prediction_timestamp_ns = some p.timestamp_ns;
    age_ns = some (time - p.timestamp_ns);
    raw_score = some p.score;
    effective_score = effective;
    diagnostic = diagnostic;
  }

  -- The end of `select`, with the latest prediction.
  unfoldable pub selected :
      ℕ
      → ℕ
      → Option (SignalPrediction Score)
      → CausalPredictionJoin Score
      → PredictionSelection Score × CausalPredictionJoin Score
  selected index time none j = (
    record {
      key = none;
      prediction_timestamp_ns = none;
      age_ns = none;
      raw_score = none;
      effective_score = zero_score;
      diagnostic = some (missing_diagnostic index j);
    },
    noting (missing_diagnostic index j) j,
  )
  selected index time (some p) j =
      if ltb j.max_prediction_age_ns (time - p.timestamp_ns)
      then (
        selection_of p time zero_score (some (stale_diagnostic index p j)),
        noting (stale_diagnostic index p j) j,
      )
      else (selection_of p time p.score none, j)

  -- The decision comes before the last one.
  abbrev pub goes_back : ℕ → ℕ → CausalPredictionJoin Score → Bool
  goes_back index time j = elim j.last_decision_message_index [
    | none ↦ false
    | some i ↦ elim j.last_decision_timestamp_ns [
      | none ↦ false
      | some t ↦ ltb index i || ltb time t
    ]
  ]

  -- The guards of `select`.
  unfoldable pub validate_decision : ℕ → ℕ → CausalPredictionJoin Score → Result (Unit {0})
  validate_decision index time j = do
    raise_if (not (valid_int index 0 max_uint64)) (prediction_error ErrorCode.prediction_key none)
    raise_if (not (valid_int time 0 max_timestamp_ns))
        (prediction_error ErrorCode.timestamp (some index))
    raise_if (goes_back index time j) (prediction_error ErrorCode.leakage_guard (some index))

  -- What follows the loop.
  unfoldable pub conclude :
      ℕ → ℕ → Scanned → Action (CausalPredictionJoin Score) (PredictionSelection Score)
  conclude index time r j = elim r.outcome [
    | err e ↦ (err e, put_back r j)
    | ok future ↦
        let (s, j') = selected index time r.latest (advanced r future index time j) in (ok s, j')
  ]

  unfoldable pub select : ℕ → ℕ → Action (CausalPredictionJoin Score) (PredictionSelection Score)
  select index time j = elim (validate_decision index time j) [
    | err e ↦ (err e, j)
    | ok _ ↦ conclude index time (scan j index time j.latest [] j.buffer j.source) j
  ]
