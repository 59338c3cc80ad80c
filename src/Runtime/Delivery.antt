-- ===== src/Runtime/Delivery.antt =====
-- The outcomes that `NativePreparedRelayPublishTransport::run` collects once its threads have ended
-- (runtime.rs). What the frame publisher, the encoder threads and the feeders returned are arguments.
pub mod Outcomes
use connectors.Base.{
  ℕ, zero, suc, Bool, true, false, not, ◌&&◌, ◌||◌, Option, none, some, List, [], ◌∷◌, ◌++◌, any,
  map, length, ◌==◌, ltb, get_elem?, is_some, is_some_and, map_option, map_or, Text, codes, Result,
  ok, err, map_err, if◌then◌else◌,
}
use connectors.Audio.OpusWorker.World.{EncoderCounters}
use connectors.Gateway.Failures.{IngressError, Retryability, retryability}
use connectors.Gateway.Ingress.{PublishStreamStats}
use connectors.Runtime.Errors.{
  ConnectorError, ConnectorErrorStage, ConnectorRetryability, RelayErrorCode, expected_error,
  publisher_failed, encoder_panicked, publisher_start_failed, preparation_cancel_failed,
  feeder_panicked, audio_processing_failed, feeder_spawn_failed, prepared_stream_mismatch,
}
use connectors.Runtime.Statistics.{Observations, PublishStats, RelayTransportOutcome, statistics}
use connectors.Runtime.Factory.{PreparedRelayRoute}
use connectors.Runtime.Worker.{or_first, failed_outcomes}

-- An ingress error comes with what `to_string` writes of it; `encoder_panics` tells of each encoder
-- thread whether joining it failed.
pub record FramePublisherExecution : Type 0 where
  pub result : Result Text PublishStats
  pub ingress_error : Option (IngressError × Text)
  pub encoder_panics : List Bool

-- `EndpointAudioReceiver`, as far as the end of a run uses it.
pub record Receivers (Receiver Edge : Type 0) : Type 0 where
  pub mark_worker_failure : Receiver → Receiver
  pub observations : Receiver → Edge

-- What a bus brings to its outcome: its encoder's counters and its receipt's queue drops.
pub record Bus : Type 0 where
  pub counters : EncoderCounters
  pub queue_drops : ℕ

abbrev pub with_drops : List ℕ → List PublishStreamStats → List PublishStreamStats
with_drops [] streams = streams
with_drops (n ∷ drops) [] = []
with_drops (n ∷ drops) (s ∷ streams) =
    record s { ingress_recovery_input_drops = n } ∷ with_drops drops streams

-- The final input drops of the delivery state, if there is one, go into the statistics.
unfoldable pub with_input_drops : Option (List ℕ) → PublishStats → PublishStats
with_input_drops none stats = stats
with_input_drops (some drops) stats = record stats { streams = with_drops drops stats.streams }

abbrev pub connector_retryability : Retryability → ConnectorRetryability
connector_retryability Retryability.retryable = ConnectorRetryability.retryable
connector_retryability Retryability.never = ConnectorRetryability.never

abbrev pub stream_of : Option PublishStats → ℕ → Option PublishStreamStats
stream_of none index = none
stream_of (some stats) index = get_elem? stats.streams index

abbrev pub flat : {Receiver : Type 0} → Option (Option Receiver) → Option Receiver
flat none = none
flat (some receiver) = receiver

module _ (max_bytes : ℕ) where
  abbrev pub delivery_error : RelayErrorCode → Text → ConnectorError
  delivery_error code message =
      expected_error max_bytes code ConnectorErrorStage.delivery ConnectorRetryability.retryable
        message

  unfoldable pub ingress_failed : IngressError × Text → ConnectorError
  ingress_failed (error, message) =
      expected_error max_bytes publisher_failed ConnectorErrorStage.delivery
        (connector_retryability (retryability error)) message

  -- `PreparedRelayPublishTransport::cancel`, after the media transport's `cancel`.
  unfoldable pub cancel : Result Text (Unit {0}) → Result ConnectorError (Unit {0})
  cancel answer = map_err answer (λ message.
      expected_error max_bytes preparation_cancel_failed ConnectorErrorStage.shutdown
        ConnectorRetryability.retryable message)

  unfoldable pub shared_error :
      Option (List ℕ)
      → Result Text FramePublisherExecution
      → Option PublishStats × Option ConnectorError
  unfolding with_input_drops
  shared_error drops (err error) = (
    none,
    some (
        expected_error max_bytes publisher_start_failed ConnectorErrorStage.startup
          ConnectorRetryability.retryable error),
  )
  shared_error drops (ok execution) =
      let ingress_error = map_option ingress_failed execution.ingress_error in
      elim execution.result [
        | err error ↦ (none, some (delivery_error publisher_failed error))
        | ok stats ↦ (
          some (with_input_drops drops stats),
          if any (λ panicked. panicked) execution.encoder_panics
              then or_first ingress_error
                  (some (delivery_error encoder_panicked (codes "relay encoder thread panicked")))
              else ingress_error,
        )
      ]

  -- A feeder that panicked returns no receiver.
  unfoldable pub with_feeders :
      {Receiver : Type 0} → List (Option Receiver) → Option ConnectorError → Option ConnectorError
  with_feeders receivers error =
      if any (λ receiver. not (is_some receiver)) receivers && not (is_some error)
      then some (delivery_error feeder_panicked (codes "relay feeder thread panicked"))
      else error

  -- The error of one bus. `display` writes a number in decimal.
  unfoldable pub bus_error :
      (ℕ → Text)
      → Option ConnectorError
      → EncoderCounters
      → Option PublishStreamStats
      → Option ConnectorError
  bus_error display (some error) counters stream = some error
  bus_error display none counters stream =
      let recovered = is_some_and stream (λ s. ltb 0 s.ingress_discontinuities) in
      if ltb 0 counters.opus_encode_errors
        || (ltb 0 counters.normalization_partial_samples_discarded && not recovered)
      then some (
          delivery_error audio_processing_failed (
            codes "relay audio processing failed: "
            ++ display counters.opus_encode_errors
            ++ codes " Opus encode errors, "
            ++ display counters.normalization_partial_samples_discarded
            ++ codes " partial PCM samples discarded"))
      else none

  module _ {Receiver Edge : Type 0} (observed : Observations Edge)
      (endpoint : Receivers Receiver Edge) where
    abbrev pub observe : Option ConnectorError → Option Receiver → Edge
    observe error none = observed.default_edge
    observe none (some receiver) = endpoint.observations receiver
    observe (some error) (some receiver) =
        endpoint.observations (endpoint.mark_worker_failure receiver)

    unfoldable pub bus_outcome :
        (ℕ → Text)
        → Option PublishStats
        → Option ConnectorError
        → List (Option Receiver)
        → ℕ
        → Bus
        → RelayTransportOutcome Edge
    unfolding bus_error
    bus_outcome display stats shared receivers index bus =
        let stream = stream_of stats index in
        let error = bus_error display shared bus.counters stream in
        record {
          statistics = statistics bus.counters bus.queue_drops stats stream;
          edge_observations = observe error (flat (get_elem? receivers index));
          error = error;
        }

    unfoldable pub bus_outcomes :
        (ℕ → Text)
        → Option PublishStats
        → Option ConnectorError
        → List (Option Receiver)
        → ℕ
        → List Bus
        → List (RelayTransportOutcome Edge)
    unfolding bus_outcome
    bus_outcomes display stats shared receivers index [] = []
    bus_outcomes display stats shared receivers index (bus ∷ buses) =
        bus_outcome display stats shared receivers index bus
        ∷ bus_outcomes display stats shared receivers (suc index) buses

    -- The outcomes after all threads have been joined.
    unfoldable pub collect :
        (ℕ → Text)
        → Option (List ℕ)
        → Result Text FramePublisherExecution
        → List (Option Receiver)
        → List Bus
        → List (RelayTransportOutcome Edge)
    unfolding shared_error with_feeders
    collect display drops execution receivers buses =
        let published = shared_error drops execution in
        bus_outcomes display published.0 (with_feeders receivers published.1) receivers 0 buses

    -- The outcomes if a feeder thread cannot be started.
    unfoldable pub spawn_failed : Text → List Bus → List (RelayTransportOutcome Edge)
    spawn_failed message [] = []
    spawn_failed message (bus ∷ buses) =
        record {
          statistics = statistics bus.counters bus.queue_drops none none;
          edge_observations = observed.default_edge;
          error = some (
              expected_error max_bytes feeder_spawn_failed ConnectorErrorStage.startup
                ConnectorRetryability.retryable (codes "relay feeder spawn failed: " ++ message));
        }
        ∷ spawn_failed message buses

    -- The outcomes if the prepared streams are not as many as the routes.
    unfoldable pub mismatched :
        List (PreparedRelayRoute Receiver) → List (RelayTransportOutcome Edge)
    mismatched routes = failed_outcomes endpoint.observations routes (
        expected_error max_bytes prepared_stream_mismatch ConnectorErrorStage.delivery
          ConnectorRetryability.never
          (codes "relay prepared stream count does not match grouped routes"))
