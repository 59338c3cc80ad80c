-- ===== src/Runtime/Errors.antt =====
-- The errors of runtime.rs: `relay_error` and `control_error`.
-- A code stands for the string `relay.<code>`. `max_bytes` is pocketstation's
-- `MAX_CONNECTOR_ERROR_MESSAGE_BYTES`.
pub mod Bounded
use connectors.Base.{
  ℕ, zero, suc, Bool, ◌||◌, Option, none, some, is_empty, if◌then◌else◌, ltb, Text, byte_len,
  is_char_boundary, truncate,
}

pub data ConnectorErrorStage : Type 0 where
  configuration prepare startup delivery shutdown join : ConnectorErrorStage

pub data ConnectorRetryability : Type 0 where
  retryable retry_after_reconfiguration never : ConnectorRetryability

pub data RelayErrorCode : Type 0 where
  invalid_receipt_capacity invalid_configuration invalid_bus_count : RelayErrorCode
  audio_input_required receipt_registry_unavailable receipt_capacity_exhausted : RelayErrorCode
  duplicate_receipt publisher_control_scope_mismatch publisher_group_mismatch : RelayErrorCode
  duplicate_bus empty_group ingress_start_failed publisher_control_changed : RelayErrorCode
  handshake_failed unsupported_sample_rate unsupported_sample_format : RelayErrorCode
  unsupported_channel_count prepared_stream_mismatch feeder_spawn_failed : RelayErrorCode
  publisher_failed encoder_panicked publisher_start_failed feeder_panicked : RelayErrorCode
  audio_processing_failed preparation_cancel_failed routes_unavailable : RelayErrorCode
  preparation_unavailable invalid_outcome_count publisher_exited : RelayErrorCode
  publisher_control_unavailable : RelayErrorCode

pub record ConnectorError : Type 0 where
  pub code : RelayErrorCode
  pub stage : ConnectorErrorStage
  pub retryability : ConnectorRetryability
  pub message : Text

-- `while boundary > 0 && !message.is_char_boundary(boundary) { boundary -= 1; }`.
unfoldable pub last_boundary : Text → ℕ → ℕ
last_boundary message zero = 0
last_boundary message (suc boundary) =
    let before = last_boundary message boundary in
    if is_char_boundary message (suc boundary) then suc boundary else before

-- The message within the limit; `none` is a panic of `truncate`.
unfoldable pub bounded : ℕ → Text → Option Text
bounded max_bytes message =
    if ltb max_bytes (byte_len message)
    then truncate message (last_boundary message max_bytes)
    else some message

-- `none` is a panic, of `truncate` or of the last `expect`: `ConnectorError::new` refuses a message
-- that is empty or beyond the limit.
unfoldable pub relay_error :
    ℕ → RelayErrorCode → ConnectorErrorStage → ConnectorRetryability → Text → Option ConnectorError
relay_error max_bytes error_code error_stage retry text = elim (bounded max_bytes text) [
  | none ↦ none
  | some bounded_message ↦
      if is_empty bounded_message || ltb max_bytes (byte_len bounded_message)
      then none
      else some (record {
        code = error_code;
        stage = error_stage;
        retryability = retry;
        message = bounded_message;
      })
]

-- The error that a caller of `relay_error` goes on with. The callers' messages are literals or what an
-- error displays, and are taken as not empty, and the limit as four bytes or more; the case of a panic
-- is there only to make the function total.
unfoldable pub expected_error :
    ℕ → RelayErrorCode → ConnectorErrorStage → ConnectorRetryability → Text → ConnectorError
expected_error max_bytes error_code error_stage retry text =
    elim (relay_error max_bytes error_code error_stage retry text) [
      | some error ↦ error
      | none ↦ record {
        code = error_code;
        stage = error_stage;
        retryability = retry;
        message = text;
      }
    ]

-- The text is what the publisher control's error displays.
unfoldable pub control_error : ℕ → Text → ConnectorError
control_error max_bytes text =
    expected_error max_bytes publisher_control_unavailable ConnectorErrorStage.configuration
      ConnectorRetryability.never text
