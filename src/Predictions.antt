-- ===== src/Predictions.antt =====
-- python/src/itchlab_research/strategies/prediction_join.py: the latest prediction at or before each
-- decision, over a stream of predictions. A score is of any type, with the test that the source
-- makes on a floating-point number and the number 0.0.
pub mod Scan
pub mod Causal
pub mod Replay
mod Tests
use Prim.Native.String.{String}
use text.Mathlib.Text.{◌==◌ as same_text}
use itch_lab.Base.{
  ℕ, ◌-◌, Bool, true, false, ◌&&◌, ◌||◌, not, Option, none, some, List, [], ◌∷◌, ◌++◌, ltb, leb,
  eqb, if◌then◌else◌,
}
use itch_lab.Base.Result.{Result, ok, err, ◌>>=◌, ◌>>◌, raise_if}
use itch_lab.Errors.{ErrorCode, SimulationError}
use itch_lab.Order.{fail, valid_int, max_uint16, max_uint64, max_timestamp_ns}

pub data PredictionDiagnosticCode : Type 0 where
  missing stale : PredictionDiagnosticCode

pub record PredictionKey : Type 0 where
  pub experiment_id : String
  -- The date's ordinal.
  pub trading_date : ℕ
  pub symbol_id : ℕ
  pub message_index : ℕ
  pub model_name : String

pub record PredictionDiagnostic : Type 0 where
  pub code : PredictionDiagnosticCode
  pub decision_message_index : ℕ
  pub symbol_id : ℕ
  pub prediction_message_index : Option ℕ
  pub reason : String

pub record SignalPrediction (Score : Type 0) : Type 0 where
  pub key : PredictionKey
  pub timestamp_ns : ℕ
  pub score : Score

pub record PredictionSelection (Score : Type 0) : Type 0 where
  pub key : Option PredictionKey
  pub prediction_timestamp_ns : Option ℕ
  pub age_ns : Option ℕ
  pub raw_score : Option Score
  pub effective_score : Score
  pub diagnostic : Option PredictionDiagnostic

-- `_source` is the list of what the iterator has still to give.
pub record CausalPredictionJoin (Score : Type 0) : Type 0 where
  pub source : List (SignalPrediction Score)
  pub buffer : List (SignalPrediction Score)
  pub experiment_id : String
  pub trading_date : ℕ
  pub symbol_id : ℕ
  pub model_name : String
  pub max_prediction_age_ns : ℕ
  pub latest : Option (SignalPrediction Score)
  pub last_decision_message_index : Option ℕ
  pub last_decision_timestamp_ns : Option ℕ
  pub diagnostics : List PredictionDiagnostic

pub record PredictionJoinState (Score : Type 0) : Type 0 where
  pub latest : Option (SignalPrediction Score)
  pub last_decision_message_index : Option ℕ
  pub last_decision_timestamp_ns : Option ℕ
  pub diagnostics : List PredictionDiagnostic

-- `_fail`
abbrev pub prediction_error : ErrorCode → Option ℕ → SimulationError
prediction_error code message_index = fail code none message_index

-- `MAX_IJSON_INTEGER`
abbrev pub max_ijson_integer : ℕ
max_ijson_integer = 9007199254740991

-- `value not in PREDICTION_MODEL_ORDER`, negated
unfoldable pub is_model_name : String → Bool
is_model_name s =
    same_text s "prior" || same_text s "logistic_regression" || same_text s "hist_gradient_boosting"

-- `_validate_model_name`
unfoldable pub validate_model_name : String → Result String
validate_model_name s =
    if not (is_model_name s) then err (prediction_error ErrorCode.prediction_key none) else ok s

module _ {Score : Type 0} where
  -- What `__init__` stores.
  abbrev pub initial_join :
      List (SignalPrediction Score) → String → ℕ → ℕ → String → ℕ → CausalPredictionJoin Score
  initial_join predictions experiment_id trading_date symbol_id model_name max_prediction_age_ns =
      record {
        source = predictions;
        buffer = [];
        experiment_id = experiment_id;
        trading_date = trading_date;
        symbol_id = symbol_id;
        model_name = model_name;
        max_prediction_age_ns = max_prediction_age_ns;
        latest = none;
        last_decision_message_index = none;
        last_decision_timestamp_ns = none;
        diagnostics = [];
      }

  -- `__init__`
  unfoldable pub make_join :
      List (SignalPrediction Score)
      → String
      → ℕ
      → ℕ
      → String
      → ℕ
      → Result (CausalPredictionJoin Score)
  make_join predictions experiment_id trading_date symbol_id model_name max_prediction_age_ns = do
    raise_if (same_text experiment_id "") (prediction_error ErrorCode.prediction_key none)
    raise_if (not (valid_int symbol_id 1 max_uint16))
        (prediction_error ErrorCode.unknown_symbol none)
    selected_model ← validate_model_name model_name
    raise_if (not (valid_int max_prediction_age_ns 0 max_ijson_integer))
        (prediction_error ErrorCode.config_schema none)
    ok (
        initial_join predictions experiment_id trading_date symbol_id selected_model
          max_prediction_age_ns)

  -- `snapshot`
  unfoldable pub snapshot_join : CausalPredictionJoin Score → PredictionJoinState Score
  snapshot_join j = record {
    latest = j.latest;
    last_decision_message_index = j.last_decision_message_index;
    last_decision_timestamp_ns = j.last_decision_timestamp_ns;
    diagnostics = j.diagnostics;
  }

  -- `previous is not None and message_index <= previous.key.message_index`
  abbrev pub not_after_key : ℕ → Option (SignalPrediction Score) → Bool
  not_after_key message_index none = false
  not_after_key message_index (some p) = leb message_index p.key.message_index

  abbrev pub before_time : ℕ → Option (SignalPrediction Score) → Bool
  before_time timestamp_ns none = false
  before_time timestamp_ns (some p) = ltb timestamp_ns p.timestamp_ns

  -- The comparisons of the key with the stream's scope, without that of the model's name.
  abbrev pub in_scope : CausalPredictionJoin Score → PredictionKey → Bool
  in_scope j k =
      same_text k.experiment_id j.experiment_id
      && eqb k.trading_date j.trading_date
      && valid_int k.symbol_id 1 max_uint16
      && eqb k.symbol_id j.symbol_id
      && valid_int k.message_index 0 max_uint64

  -- `_validate_prediction_key`
  unfoldable pub validate_prediction_key :
      CausalPredictionJoin Score
      → SignalPrediction Score
      → Option (SignalPrediction Score)
      → Result (Unit {0})
  validate_prediction_key j p previous = do
    raise_if (not (in_scope j p.key))
        (prediction_error ErrorCode.prediction_key (some p.key.message_index))
    name ← validate_model_name p.key.model_name
    raise_if (not (same_text name j.model_name))
        (prediction_error ErrorCode.prediction_key (some p.key.message_index))
    raise_if (not_after_key p.key.message_index previous)
        (prediction_error ErrorCode.prediction_key (some p.key.message_index))

  -- `_validate_prediction_payload`; `bounded` is the test of the score.
  unfoldable pub validate_prediction_payload :
      (Score → Bool) → SignalPrediction Score → Option (SignalPrediction Score) → Result (Unit {0})
  validate_prediction_payload bounded p previous = do
    raise_if (not (valid_int p.timestamp_ns 0 max_timestamp_ns))
        (prediction_error ErrorCode.prediction_key (some p.key.message_index))
    raise_if (not (bounded p.score))
        (prediction_error ErrorCode.prediction_key (some p.key.message_index))
    raise_if (before_time p.timestamp_ns previous)
        (prediction_error ErrorCode.prediction_key (some p.key.message_index))
