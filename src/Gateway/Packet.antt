-- ===== src/Gateway/Packet.antt =====
-- `encode_packet`: the 40-byte header and the payload of one ingress packet. A byte is a number below
-- 256, a packet the list of its bytes.
pub mod Decoding
use connectors.Base.{
  ℕ, zero, suc, ◌*◌, ◌/◌, ◌%◌, ◌^◌, Bool, not, ◌&&◌, ◌||◌, List, [], ◌∷◌, ◌++◌, Option, none, some,
  map_or, drop, length, Result, ok, err, ◌>>=◌, ◌>>◌, fail_if, ltb, leb, ◌==◌,
}
use connectors.Audio.OpusWorker.World.{EncodedAudioFrame}

abbrev pub header_bytes : ℕ
header_bytes = 40

abbrev pub max_opus_payload_bytes : ℕ
max_opus_payload_bytes = 1_275

abbrev pub duration_samples : ℕ
duration_samples = 960

-- `to_be_bytes` at a width in bytes.
unfoldable pub to_be_bytes : ℕ → ℕ → List ℕ
to_be_bytes zero value = []
to_be_bytes (suc width) value = to_be_bytes width (value / 256) ++ value % 256 ∷ []

-- Why a packet is refused; the source has a text for each.
pub data PacketError : Type 0 where
  unsupported_packet unaligned_timestamp integer_too_large : PacketError

-- `u16::try_from`.
abbrev pub u16_try_from : ℕ → Result PacketError ℕ
u16_try_from value = fail_if (leb (2 ^ 16) value) integer_too_large >> ok value

module _ {Generation : Type 0} (generation_id : Generation → ℕ) where
  -- The bytes that the calls of `extend_from_slice` append, in their order.
  abbrev pub wire : EncodedAudioFrame Generation → ℕ → ℕ → ℕ → List ℕ
  wire frame channels duration payload_length =
      b'P' ∷ b'K' ∷ b'S' ∷ b'O' ∷ 1 ∷ channels ∷ 0 ∷ 0 ∷ []
      ++ to_be_bytes 8 (frame.rtp_time / duration_samples)
      ++ drop 4 (to_be_bytes 8 frame.rtp_time)
      ++ to_be_bytes 2 duration
      ++ to_be_bytes 2 payload_length
      ++ to_be_bytes 8 frame.capture_timestamp_ns
      ++ to_be_bytes 8 (map_or frame.output_generation 0 generation_id)
      ++ frame.payload

  unfoldable pub encode_packet : EncodedAudioFrame Generation → ℕ → Result PacketError (List ℕ)
  encode_packet frame channels = do
    fail_if
        (not (channels == 1 || channels == 2)
          || not (frame.duration_samples == duration_samples)
          || length frame.payload == 0
          || ltb max_opus_payload_bytes (length frame.payload))
        unsupported_packet
    fail_if (not (frame.rtp_time % duration_samples == 0)) unaligned_timestamp
    duration ← u16_try_from duration_samples
    payload_length ← u16_try_from (length frame.payload)
    ok (wire frame channels duration payload_length)
