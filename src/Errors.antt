-- ===== src/Errors.antt =====
-- python/src/itchlab_research/errors.py: the stable error codes, and `SimulationError`, whose
-- message text is left out.
use itch_lab.Base.{ℕ, Option}

pub data ErrorCode : Type 0 where
  input_path unsupported_compression framing truncated_message empty_input : ErrorCode
  message_length unknown_message timestamp unknown_symbol trading_date : ErrorCode
  order_reference quantity price book_crossed invariant output_path disk_write : ErrorCode
  hash_mismatch schema_version partial_artefact config_schema session_window : ErrorCode
  timezone depth horizon partition row_stride seed empty_dataset leakage_guard : ErrorCode
  model_training prediction_key latency cost queue_state inventory_limit : ErrorCode
  simulation_anomaly broken_sim_fill run_exists cancelled internal : ErrorCode

pub record SimulationError : Type 0 where
  pub code : ErrorCode
  pub simulated_order_id : Option ℕ
  pub message_index : Option ℕ
