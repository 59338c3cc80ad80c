-- ===== src/Audio/Packetizer.antt =====
-- relay/src/audio/pcm_packetizer.rs: the fixed-capacity assembler of 20 ms PCM packets.
-- A sample is of any type, since the packetizer only moves samples; `silence` is 0.0. The number
-- of samples of an Opus frame per channel (`OPUS_FRAME_SAMPLES` of pocketstation) is a parameter.
pub mod Bounds
pub mod Pending
pub mod Boundary
use connectors.Base.{
  ℕ, ◌+◌, ◌-◌, ◌*◌, ◌/◌, ◌%◌, min, Bool, true, false, not, ◌&&◌, ◌||◌, Option, none, some, List,
  if◌then◌else◌, ltb, ◌==◌, is_some_and, length, take, replicate, copy_into, saturating_add,
  saturating_mul, Result, ok, err,
}

pub data PcmPacketizerError : Type 0 where
  unsupported_channel_count : ℕ → PcmPacketizerError
  unsupported_sample_rate : ℕ → PcmPacketizerError
  misaligned_input : (samples channels : ℕ) → PcmPacketizerError

pub record PcmPacketizerBegin : Type 0 where
  pub discontinuity_discarded_samples : ℕ
  pub cancelled_output_discarded_samples : ℕ

pub record PcmPacketizer (A : Type 0) : Type 0 where
  pub samples : List A
  pub written : ℕ
  pub packet_samples : ℕ
  pub channels : ℕ
  pub packet_timestamp_ns : ℕ
  pub expected_sequence_number : Option ℕ
  pub output_generation_id : Option ℕ

-- `==` on `Option<u64>`.
abbrev pub option_eq : Option ℕ → Option ℕ → Bool
option_eq none none = true
option_eq none (some b) = false
option_eq (some a) none = false
option_eq (some a) (some b) = a == b

module _ {A : Type 0} where
  unfoldable pub new : ℕ → A → ℕ → ℕ → Result PcmPacketizerError (PcmPacketizer A)
  new opus_frame_samples silence sample_rate_hz channels =
      if not (sample_rate_hz == 48_000)
      then err (unsupported_sample_rate sample_rate_hz)
      else if not (channels == 1 || channels == 2)
      then err (unsupported_channel_count channels)
      else ok (record {
        samples = replicate (opus_frame_samples * 2) silence;
        written = 0;
        packet_samples = opus_frame_samples * channels;
        channels = channels;
        packet_timestamp_ns = 0;
        expected_sequence_number = none;
        output_generation_id = none;
      })

  unfoldable pub discard_partial : PcmPacketizer A → PcmPacketizer A × ℕ
  discard_partial p = (record p { written = 0; packet_timestamp_ns = 0 }, p.written)

  abbrev pub sequence_changed : PcmPacketizer A → ℕ → Bool
  sequence_changed p sequence_number =
      is_some_and p.expected_sequence_number (λ expected. not (expected == sequence_number))

  abbrev pub output_changed : PcmPacketizer A → Option ℕ → Bool
  output_changed p output_generation_id =
      ltb 0 p.written && not (option_eq p.output_generation_id output_generation_id)

  unfoldable pub begin_frame :
      PcmPacketizer A
      → ℕ
      → ℕ
      → Option ℕ
      → Result PcmPacketizerError (PcmPacketizer A × PcmPacketizerBegin)
  unfolding discard_partial
  begin_frame p sequence_number sample_count output_generation_id =
      if not (sample_count % p.channels == 0)
      then err (misaligned_input sample_count p.channels)
      else (let sequence = sequence_changed p sequence_number in
          let output = output_changed p output_generation_id in
          let (q, discarded) = if sequence || output then discard_partial p else (p, 0) in
          ok (
            record q {
              expected_sequence_number = some (saturating_add sequence_number 1);
              output_generation_id = output_generation_id;
            },
            record {
              discontinuity_discarded_samples = if sequence && not output then discarded else 0;
              cancelled_output_discarded_samples = if output then discarded else 0;
            },
          ))

  -- The timestamp of the packet that a push into an empty packetizer starts.
  unfoldable pub start_timestamp : PcmPacketizer A → ℕ → ℕ → ℕ
  start_timestamp p input_timestamp_ns input_offset =
      saturating_add input_timestamp_ns
        (saturating_mul (input_offset / p.channels) 1_000_000_000 / 48_000)

  unfoldable pub push : PcmPacketizer A → List A → ℕ → ℕ → PcmPacketizer A × ℕ
  push p input input_timestamp_ns input_offset =
      let copied = min (length input) (p.packet_samples - p.written) in
      (
        record p {
          samples = copy_into p.samples p.written (take copied input);
          written = p.written + copied;
          packet_timestamp_ns =
              if p.written == 0
              then start_timestamp p input_timestamp_ns input_offset
              else p.packet_timestamp_ns;
        },
        copied,
      )

  unfoldable pub complete_packet : PcmPacketizer A → Option (List A × ℕ)
  complete_packet p =
      if p.written == p.packet_samples
      then some (take p.packet_samples p.samples, p.packet_timestamp_ns)
      else none

  -- The `debug_assert_eq!` on `written` is the hypothesis of the lemmas about this function.
  unfoldable pub finish_packet : PcmPacketizer A → PcmPacketizer A
  finish_packet p = record p { written = 0; packet_timestamp_ns = 0 }

  unfoldable pub pad_tail : A → PcmPacketizer A → PcmPacketizer A × Option ℕ
  pad_tail silence p =
      let padding = p.packet_samples - p.written in
      if p.written == 0 then (p, none) else (
        record p {
          samples = copy_into p.samples p.written (replicate padding silence);
          written = p.packet_samples;
        },
        some padding,
      )
