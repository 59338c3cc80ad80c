-- ===== src/Source/Configuration.antt =====
-- `RelayAudioBusSourceConfig` and its validation (source.rs). The token is its text.
pub mod Accepted
use connectors.Base.{
  ℕ, ◌*◌, Bool, true, false, not, ◌||◌, List, [], ◌==◌, ltb, Text, text_eq, byte_len, is_empty,
  trim, strip_prefix, is_some, codes, Result, ok, err, ◌>>◌, fail_if,
}
use connectors.Configuration.Types.{RelayIceServer}

pub record RelayAudioBusSourceConfig : Type 0 where
  pub relay_url : Text
  pub relay_session_id : Text
  pub bus_id : Text
  pub subscriber_token : Text
  pub source_generation : ℕ
  pub startup_timeout : ℕ
  pub no_frame_timeout : ℕ
  pub ice_servers : List RelayIceServer

-- What an invalid configuration complains of, in the place of its message.
pub data Complaint : Type 0 where
  bounded_identity url_scheme empty_token zero_generation zero_timeout : Complaint

pub data RelayAudioBusSourceError : Type 0 where
  invalid_configuration : Complaint → RelayAudioBusSourceError
  manifest session : Text → RelayAudioBusSourceError
  wrong_session reservation_state_unavailable reservation_conflict : RelayAudioBusSourceError

abbrev pub Sourced : Type 0 → Type 0
Sourced A = Result RelayAudioBusSourceError A

abbrev pub seconds : ℕ → ℕ
seconds n = n * 1_000_000_000

-- `str::starts_with`.
abbrev pub starts_with : Text → Text → Bool
starts_with t p = is_some (strip_prefix p t)

unfoldable pub validate_bounded_identity : Text → ℕ → Sourced (Unit {0})
validate_bounded_identity value maximum_bytes =
    fail_if
      (is_empty value || not (text_eq (trim value) value) || ltb maximum_bytes (byte_len value))
      (invalid_configuration bounded_identity)

unfoldable pub validate : RelayAudioBusSourceConfig → Sourced (Unit {0})
validate c = do
  validate_bounded_identity c.relay_url 2_048
  fail_if
      (not
        (starts_with c.relay_url (codes "http://") || starts_with c.relay_url (codes "https://")))
      (invalid_configuration url_scheme)
  validate_bounded_identity c.relay_session_id 256
  validate_bounded_identity c.bus_id 128
  fail_if (is_empty c.subscriber_token) (invalid_configuration empty_token)
  fail_if (c.source_generation == 0) (invalid_configuration zero_generation)
  fail_if (c.startup_timeout == 0 || c.no_frame_timeout == 0) (invalid_configuration zero_timeout)

unfoldable pub new : Text → Text → Text → Text → ℕ → Sourced RelayAudioBusSourceConfig
new relay_url relay_session_id bus_id subscriber_token source_generation =
    let config : RelayAudioBusSourceConfig = record {
      relay_url = relay_url;
      relay_session_id = relay_session_id;
      bus_id = bus_id;
      subscriber_token = subscriber_token;
      source_generation = source_generation;
      startup_timeout = seconds 10;
      no_frame_timeout = seconds 6;
      ice_servers = [];
    } in
    do validate config; ok config
