-- ===== src/Runtime/Grouping.antt =====
-- The checks of runtime.rs on the routes that are prepared together: `validate_grouped_routes`,
-- `bind_control` and `relay_stream_profile`.
-- A factory has one publisher control or none, so a preparation tells whether it carries its handle.
pub mod Accepted
use connectors.Base.{
  ℕ, Bool, true, false, not, ◌||◌, Option, none, some, List, [], ◌∷◌, ◌++◌, map, any, ◌==◌, Text,
  text_eq, codes, Result, ok, err, ◌>>◌, fail_if, if◌then◌else◌,
}
use connectors.Configuration.Types.{Api, RelayRouteConfiguration}
use connectors.Configuration.Builders.{same_publisher}
use connectors.Control.Handle.{SharedControl, matches}
use connectors.Runtime.Errors.{
  ConnectorError, ConnectorErrorStage, ConnectorRetryability, RelayErrorCode, expected_error,
  publisher_group_mismatch, duplicate_bus, publisher_control_scope_mismatch,
  unsupported_sample_rate, unsupported_sample_format, unsupported_channel_count,
}

-- `SampleSpec` of pocketstation.
pub record SampleSpec : Type 0 where
  pub sample_rate_hz : ℕ
  pub channels : ℕ
  pub is_f32_interleaved : Bool

pub record RelayTransportPreparation (Secret : Type 0) : Type 0 where
  pub configuration : RelayRouteConfiguration Secret
  pub sample_spec : SampleSpec
  pub has_control : Bool

pub data StreamProfile : Type 0 where
  voice_mono_20ms music_stereo_20ms : StreamProfile

abbrev pub contains : List Text → Text → Bool
contains seen t = any (text_eq t) seen

-- `display` writes a number in decimal.
unfoldable pub relay_stream_profile :
    ℕ → (ℕ → Text) → SampleSpec → Result ConnectorError StreamProfile
relay_stream_profile max_bytes display spec =
    if not (spec.sample_rate_hz == 48_000)
    then err (
        expected_error max_bytes unsupported_sample_rate ConnectorErrorStage.prepare
          ConnectorRetryability.retry_after_reconfiguration
          (codes "relay input sample rate is "
            ++ display spec.sample_rate_hz
            ++ codes " Hz; expected 48000 Hz"))
    else if not spec.is_f32_interleaved
    then err (
        expected_error max_bytes unsupported_sample_format ConnectorErrorStage.prepare
          ConnectorRetryability.retry_after_reconfiguration
          (codes "relay input must use interleaved f32 PCM"))
    else if spec.channels == 1
    then ok voice_mono_20ms
    else if spec.channels == 2
    then ok music_stereo_20ms
    else err (
        expected_error max_bytes unsupported_channel_count ConnectorErrorStage.prepare
          ConnectorRetryability.retry_after_reconfiguration
          (codes "relay input has unsupported channel count " ++ display spec.channels))

module _ {Secret Url : Type 0} (api : Api Secret Url) (max_bytes : ℕ) where
  -- The loop of `validate_grouped_routes`; `buses` are those of the routes before.
  unfoldable pub validate_from :
      RelayRouteConfiguration Secret
      → List Text
      → List (RelayTransportPreparation Secret)
      → Result ConnectorError (Unit {0})
  validate_from first buses [] = ok tt
  validate_from first buses (route ∷ routes) =
      let rest = validate_from first (route.configuration.bus_id ∷ buses) routes in
      do
        fail_if (not (same_publisher api first route.configuration)) (
            expected_error max_bytes publisher_group_mismatch ConnectorErrorStage.prepare
              ConnectorRetryability.retry_after_reconfiguration
              (codes
                "grouped relay routes must share one Relay origin, Session, credential, publisher group, ICE configuration and startup deadline"))
        fail_if (contains buses route.configuration.bus_id) (
            expected_error max_bytes duplicate_bus ConnectorErrorStage.prepare
              ConnectorRetryability.retry_after_reconfiguration
              (codes "grouped relay routes contain a duplicate AudioBus identifier"))
        rest

  -- `routes[0]` panics on no route: the first route is an argument of its own.
  unfoldable pub validate_grouped_routes :
      RelayTransportPreparation Secret
      → List (RelayTransportPreparation Secret)
      → Result ConnectorError (Unit {0})
  validate_grouped_routes first routes = validate_from first.configuration [] (first ∷ routes)

module _ {Secret : Type 0} (max_bytes : ℕ) where
  unfoldable pub bind_control :
      Option (SharedControl Secret)
      → List (RelayTransportPreparation Secret)
      → Result ConnectorError (List (RelayTransportPreparation Secret))
  bind_control none routes = ok routes
  bind_control (some control) routes = do
    fail_if (any (λ route. not (matches control route.configuration)) routes) (
        expected_error max_bytes publisher_control_scope_mismatch ConnectorErrorStage.configuration
          ConnectorRetryability.never
          (codes
            "publisher control must match every route's Relay origin, Session, group and WebSocket transport"))
    ok (
        map (λ (route : RelayTransportPreparation Secret). record route { has_control = true })
          routes)
