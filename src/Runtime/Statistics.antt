-- ===== src/Runtime/Statistics.antt =====
-- `RelayPublishStatistics`, `statistics` and `record_outcome` of runtime.rs. The edge observations of
-- pocketstation are a type with the two totals that the runtime reads.
use connectors.Base.{ℕ, ◌/◌, min, List, [], ◌∷◌, Option, map_or, u64_max, saturating_add}
use connectors.Audio.OpusWorker.World.{EncoderCounters}
use connectors.Gateway.Ingress.{PublishStreamStats}
use connectors.Runtime.Errors.{ConnectorError}

pub record RelayPublishStatistics : Type 0 where
  pub ingress_frames_sent_total : ℕ
  pub ingress_payload_bytes_sent_total : ℕ
  pub ingress_source_generation : ℕ
  pub ingress_attachments_total : ℕ
  pub ingress_renewals_total : ℕ
  pub ingress_reconnects_total : ℕ
  pub ingress_reconnect_attempts_total : ℕ
  pub ingress_recovery_input_frames_dropped_total : ℕ
  pub ingress_recovery_opus_packets_dropped_total : ℕ
  pub ingress_discontinuities_total : ℕ
  pub ingress_credential_revision : ℕ
  pub rtp_packets_sent_total : ℕ
  pub rtp_payload_bytes_sent_total : ℕ
  pub rtc_poll_drains_total : ℕ
  pub rtc_writer_writes_total : ℕ
  pub elapsed_ms : ℕ
  pub opus_packets_encoded_total : ℕ
  pub opus_encode_errors_total : ℕ
  pub encoder_channel_drops_total : ℕ
  pub publisher_stale_drops_total : ℕ
  pub ingress_queue_drops_total : ℕ
  pub cancelled_output_frames_total : ℕ
  pub cancelled_output_samples_total : ℕ
  pub normalization_partial_samples_discarded_total : ℕ

abbrev pub default_statistics : RelayPublishStatistics
default_statistics = record {
  ingress_frames_sent_total = 0;
  ingress_payload_bytes_sent_total = 0;
  ingress_source_generation = 0;
  ingress_attachments_total = 0;
  ingress_renewals_total = 0;
  ingress_reconnects_total = 0;
  ingress_reconnect_attempts_total = 0;
  ingress_recovery_input_frames_dropped_total = 0;
  ingress_recovery_opus_packets_dropped_total = 0;
  ingress_discontinuities_total = 0;
  ingress_credential_revision = 0;
  rtp_packets_sent_total = 0;
  rtp_payload_bytes_sent_total = 0;
  rtc_poll_drains_total = 0;
  rtc_writer_writes_total = 0;
  elapsed_ms = 0;
  opus_packets_encoded_total = 0;
  opus_encode_errors_total = 0;
  encoder_channel_drops_total = 0;
  publisher_stale_drops_total = 0;
  ingress_queue_drops_total = 0;
  cancelled_output_frames_total = 0;
  cancelled_output_samples_total = 0;
  normalization_partial_samples_discarded_total = 0;
}

-- `PublishStats` of rtc/publisher.rs; `elapsed` is in nanoseconds.
pub record PublishStats : Type 0 where
  pub drains : ℕ
  pub writes : ℕ
  pub elapsed : ℕ
  pub streams : List PublishStreamStats

-- `u64::try_from(elapsed.as_millis()).unwrap_or(u64::MAX)`.
abbrev pub millis_u64 : ℕ → ℕ
millis_u64 elapsed = min (elapsed / 1_000_000) u64_max

unfoldable pub statistics :
    EncoderCounters → ℕ → Option PublishStats → Option PublishStreamStats → RelayPublishStatistics
statistics counters queue_drops publish stream = record {
  ingress_frames_sent_total = map_or stream 0 (λ s. s.ingress_frames_sent);
  ingress_payload_bytes_sent_total = map_or stream 0 (λ s. s.ingress_payload_bytes_sent);
  ingress_source_generation = map_or stream 0 (λ s. s.ingress_source_generation);
  ingress_attachments_total = map_or stream 0 (λ s. s.ingress_attachments);
  ingress_renewals_total = map_or stream 0 (λ s. s.ingress_renewals);
  ingress_reconnects_total = map_or stream 0 (λ s. s.ingress_reconnects);
  ingress_reconnect_attempts_total = map_or stream 0 (λ s. s.ingress_reconnect_attempts);
  ingress_recovery_input_frames_dropped_total =
      map_or stream 0 (λ s. s.ingress_recovery_input_drops);
  ingress_recovery_opus_packets_dropped_total =
      map_or stream 0 (λ s. s.ingress_recovery_opus_drops);
  ingress_discontinuities_total = map_or stream 0 (λ s. s.ingress_discontinuities);
  ingress_credential_revision = map_or stream 0 (λ s. s.ingress_credential_revision);
  rtp_packets_sent_total = map_or stream 0 (λ s. s.rtp_sent);
  rtp_payload_bytes_sent_total = map_or stream 0 (λ s. s.bytes_sent);
  rtc_poll_drains_total = map_or publish 0 (λ p. p.drains);
  rtc_writer_writes_total = map_or publish 0 (λ p. p.writes);
  elapsed_ms = map_or publish 0 (λ p. millis_u64 p.elapsed);
  opus_packets_encoded_total = counters.opus_packets_out;
  opus_encode_errors_total = counters.opus_encode_errors;
  encoder_channel_drops_total = counters.encoded_channel_drops;
  publisher_stale_drops_total = counters.publisher_stale_drops;
  ingress_queue_drops_total = queue_drops;
  cancelled_output_frames_total = counters.cancelled_output_frames;
  cancelled_output_samples_total = counters.cancelled_output_samples;
  normalization_partial_samples_discarded_total = counters.normalization_partial_samples_discarded;
}

-- `EdgeObservations` of pocketstation.
pub record Observations (Edge : Type 0) : Type 0 where
  pub default_edge : Edge
  pub frames_dropped_total : Edge → ℕ
  pub discontinuities_total : Edge → ℕ

pub record RelayTransportOutcome (Edge : Type 0) : Type 0 where
  pub statistics : RelayPublishStatistics
  pub edge_observations : Edge
  pub error : Option ConnectorError

-- What the connector's context is told, in the order of the calls.
pub data ContextCall : Type 0 where
  readiness_success : ContextCall
  frame_received frame_delivered frame_dropped discontinuity : ℕ → ContextCall

module _ {Edge : Type 0} (observed : Observations Edge) where
  unfoldable pub record_outcome : RelayTransportOutcome Edge → List ContextCall
  record_outcome outcome =
      let s = outcome.statistics in
      frame_delivered s.rtp_packets_sent_total
      ∷ frame_dropped (
          saturating_add
            (saturating_add
              (saturating_add (observed.frames_dropped_total outcome.edge_observations)
                s.ingress_queue_drops_total)
              s.encoder_channel_drops_total)
            s.publisher_stale_drops_total)
      ∷ discontinuity (
          saturating_add (observed.discontinuities_total outcome.edge_observations)
            s.ingress_discontinuities_total)
      ∷ []
