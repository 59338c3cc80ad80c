-- ===== src/Audio/OpusWorker/World.antt =====
-- What opus_worker.rs uses of pocketstation (codec, output generations, clock), of f32 arithmetic
-- and of `std::sync::mpsc`, as parameters; and the data types of opus_worker.rs.
use connectors.Base.{ℕ, Bool, Option, List}
use connectors.Audio.Latency.{LatencyProfile, low, standard}

-- The f32 operations of the audio level.
pub record Float32 (F : Type 0) : Type 0 where
  pub zero : F
  pub of_ℕ : ℕ → F
  pub minus_twenty : F
  pub one_billionth : F
  pub plus : F → F → F
  pub times : F → F → F
  pub over : F → F → F
  pub sqrt : F → F
  pub log10 : F → F
  pub less : F → F → Bool
  pub clamp : F → F → F → F
  pub round_to_i8 : F → ℕ

-- What `SyncSender::try_send` answers.
pub data TrySend : Type 0 where
  accepted full disconnected : TrySend

pub record World (F Generation Encoder : Type 0) : Type 0 where
  pub float : Float32 F
  pub generation_id : Generation → ℕ
  pub is_active : ℕ → Generation → Bool
  -- `OpusEncoder::encode_into`: the payload, or `none` for an encode error.
  pub encode_into : Encoder → List F → Encoder × Option (List ℕ)
  pub monotonic_ns : ℕ → ℕ
  pub instant_now : ℕ → ℕ
  -- Whether a blocking `send` that begins at this moment ends in success.
  pub send_is_ok : ℕ → Bool
  pub try_send : ℕ → TrySend

-- `EncoderCounters`: shared totals that wrap around.
pub record EncoderCounters : Type 0 where
  pub normalization_partial_samples_discarded : ℕ
  pub normalization_tail_padding_samples_total : ℕ
  pub opus_packets_out : ℕ
  pub opus_encode_errors : ℕ
  pub encoded_channel_drops : ℕ
  pub publisher_stale_drops : ℕ
  pub cancelled_output_frames : ℕ
  pub cancelled_output_samples : ℕ
  pub capture_age_sum_ns : ℕ
  pub capture_age_max_ns : ℕ
  pub capture_age_sample_count : ℕ
  pub capture_age_over_budget : ℕ

-- `EncoderCounters::default()`.
abbrev pub default_counters : EncoderCounters
default_counters = record {
  normalization_partial_samples_discarded = 0;
  normalization_tail_padding_samples_total = 0;
  opus_packets_out = 0;
  opus_encode_errors = 0;
  encoded_channel_drops = 0;
  publisher_stale_drops = 0;
  cancelled_output_frames = 0;
  cancelled_output_samples = 0;
  capture_age_sum_ns = 0;
  capture_age_max_ns = 0;
  capture_age_sample_count = 0;
  capture_age_over_budget = 0;
}

pub record EncodedAudioFrame (Generation : Type 0) : Type 0 where
  pub payload : List ℕ
  pub wallclock : ℕ
  pub rtp_time : ℕ
  pub duration_samples : ℕ
  pub audio_level : Option ℕ
  pub capture_timestamp_ns : ℕ
  pub capture_age_ns : ℕ
  pub output_generation : Option Generation

-- `EncodableFrame`, with what its methods return.
pub record EncodableFrame (F Generation : Type 0) : Type 0 where
  pub samples : List F
  pub sequence_number : ℕ
  pub sample_rate_hz : ℕ
  pub channels : ℕ
  pub capture_timestamp_ns : ℕ
  pub output_generation : Option Generation

pub data EncodedDeliveryPolicy : Type 0 where
  preserve_with_backpressure drop_newest : EncodedDeliveryPolicy

unfoldable pub for_latency_profile : LatencyProfile → EncodedDeliveryPolicy
for_latency_profile low = drop_newest
for_latency_profile standard = preserve_with_backpressure

-- 40 ms.
abbrev pub capture_age_budget_ns : ℕ
capture_age_budget_ns = 40_000_000
