-- ===== src/Gateway/Packet/Decoding.antt =====
-- A receiver reads back from a packet what `encode_packet` wrote, field by field.
use native.Mathlib.Nat.{pow-suc}
use connectors.Base.{
  ℕ, zero, suc, ◌+◌, ◌*◌, ◌/◌, ◌%◌, ◌^◌, ◌≡◌, ◌<◌, ◌≤◌, ◌⊎◌, ◌↔◌, refl, ◌∙◌, List, [], ◌∷◌, ◌++◌,
  map_or, take, drop, get_or, length, ok, arith, length-append,
}
use connectors.Audio.OpusWorker.World.{EncodedAudioFrame}
use connectors.Gateway.Packet.{to_be_bytes, encode_packet, wire}

-- `from_be_bytes`.
unfoldable pub from_be : ℕ → List ℕ → ℕ
from_be acc [] = acc
from_be acc (b ∷ bytes) = from_be (acc * 256 + b) bytes

length-to_be_bytes : (width value : ℕ) → length (to_be_bytes width value) ≡ width
unfolding to_be_bytes
length-to_be_bytes zero value = refl
length-to_be_bytes (suc width) value = omega (
  arith,
  length-append (to_be_bytes width (value / 256)) (value % 256 ∷ []),
  length-to_be_bytes width (value / 256),
)

from_be-snoc :
    (acc b : ℕ) (bytes : List ℕ) → from_be acc (bytes ++ b ∷ []) ≡ from_be acc bytes * 256 + b
unfolding from_be
from_be-snoc acc b [] = refl
from_be-snoc acc b (c ∷ bytes) = from_be-snoc (acc * 256 + c) b bytes

from_be-to_be_bytes :
    (width value : ℕ) → value < 256 ^ width → from_be 0 (to_be_bytes width value) ≡ value
unfolding to_be_bytes
from_be-to_be_bytes zero value h = unfold from_be in omega (arith, h)
from_be-to_be_bytes (suc width) value h =
    let lower : value / 256 < 256 ^ width = omega (arith, h, pow-suc 256 width) in
    from_be-snoc 0 (value % 256) (to_be_bytes width (value / 256))
    ∙ omega (arith, from_be-to_be_bytes width (value / 256) lower)

-- The last four of eight bytes are the value modulo 2 ^ 32.
from_be-low_half : (value : ℕ) → from_be 0 (drop 4 (to_be_bytes 8 value)) ≡ value % 2 ^ 32
unfolding to_be_bytes from_be
from_be-low_half value = omega arith

-- What the fields of a packet say.
pub record Received : Type 0 where
  pub magic : List ℕ
  pub version : ℕ
  pub channels : ℕ
  pub sequence : ℕ
  pub sample_time : ℕ
  pub duration : ℕ
  pub payload_length : ℕ
  pub capture_timestamp_ns : ℕ
  pub output_generation : ℕ
  pub payload : List ℕ

abbrev pub read_packet : List ℕ → Received
read_packet packet = record {
  magic = take 4 packet;
  version = get_or packet 4 0;
  channels = get_or packet 5 0;
  sequence = from_be 0 (take 8 (drop 8 packet));
  sample_time = from_be 0 (take 4 (drop 16 packet));
  duration = from_be 0 (take 2 (drop 20 packet));
  payload_length = from_be 0 (take 2 (drop 22 packet));
  capture_timestamp_ns = from_be 0 (take 8 (drop 24 packet));
  output_generation = from_be 0 (take 8 (drop 32 packet));
  payload = drop 40 packet;
}

module _ {Generation : Type 0} (generation_id : Generation → ℕ) where
  -- What `encode_packet` accepts: a mono or stereo packet of 20 ms at a multiple of its duration.
  pub record IsSendable (frame : EncodedAudioFrame Generation) (channels : ℕ) : Type 0 where
    pub layout : (channels ≡ 1) ⊎ (channels ≡ 2)
    pub duration : frame.duration_samples ≡ 960
    pub nonempty : 1 ≤ length frame.payload
    pub bounded : length frame.payload ≤ 1_275
    pub aligned : frame.rtp_time % 960 ≡ 0

  -- `encode_packet` accepts exactly the mono and stereo packets of 20 ms with 1 to 1,275 bytes of
  -- payload at a multiple of their duration, and then returns the header and the payload.
  pub encode_packet_iff :
      (frame : EncodedAudioFrame Generation) (channels : ℕ) (packet : List ℕ)
      → (encode_packet generation_id frame channels ≡ ok packet) ↔ (
          IsSendable frame channels
          × (packet ≡ wire generation_id frame channels 960 (length frame.payload)))
  unfolding encode_packet
  encode_packet_iff frame channels packet = (
    λ h. (
      record {
        layout = ground arith;
        duration = ground arith;
        nonempty = ground arith;
        bounded = ground arith;
        aligned = ground arith;
      },
      ground arith,
    ),
    λ (v, e).
        let layout = v.layout in
        let duration = v.duration in
        let nonempty = v.nonempty in
        let bounded = v.bounded in let aligned = v.aligned in ground arith,
  )

  -- The fields stand where the receiver looks for them.
  wire_fields :
      (frame : EncodedAudioFrame Generation) (channels d l : ℕ)
      → (length (wire generation_id frame channels d l) ≡ 40 + length frame.payload)
        × (read_packet (wire generation_id frame channels d l) ≡ record {
          magic = b'P' ∷ b'K' ∷ b'S' ∷ b'O' ∷ [];
          version = 1;
          channels = channels;
          sequence = from_be 0 (to_be_bytes 8 (frame.rtp_time / 960));
          sample_time = from_be 0 (drop 4 (to_be_bytes 8 frame.rtp_time));
          duration = from_be 0 (to_be_bytes 2 d);
          payload_length = from_be 0 (to_be_bytes 2 l);
          capture_timestamp_ns = from_be 0 (to_be_bytes 8 frame.capture_timestamp_ns);
          output_generation =
              from_be 0 (to_be_bytes 8 (map_or frame.output_generation 0 generation_id));
          payload = frame.payload;
        })
  unfolding to_be_bytes from_be
  wire_fields frame channels d l = (omega arith, refl)

  -- When `encode_packet` accepts a frame whose sample time, capture time and output are 64-bit words,
  -- the packet has 40 bytes and the payload, and a receiver reads from it the magic, version 1, the
  -- channels, the sequence number, the low half of the sample time, the duration, the length of the
  -- payload, the capture time, the output or 0, and the payload.
  pub encode_packet-read :
      (frame : EncodedAudioFrame Generation) (channels : ℕ) (packet : List ℕ)
      → frame.rtp_time < 2 ^ 64
      → frame.capture_timestamp_ns < 2 ^ 64
      → map_or frame.output_generation 0 generation_id < 2 ^ 64
      → encode_packet generation_id frame channels ≡ ok packet
      → (length packet ≡ 40 + length frame.payload)
        × (read_packet packet ≡ record {
          magic = b'P' ∷ b'K' ∷ b'S' ∷ b'O' ∷ [];
          version = 1;
          channels = channels;
          sequence = frame.rtp_time / 960;
          sample_time = frame.rtp_time % 2 ^ 32;
          duration = 960;
          payload_length = length frame.payload;
          capture_timestamp_ns = frame.capture_timestamp_ns;
          output_generation = map_or frame.output_generation 0 generation_id;
          payload = frame.payload;
        })
  encode_packet-read frame channels packet time capture generation h =
      let (v, made) = (encode_packet_iff frame channels packet).0 h in
      let bounded = v.bounded in
      let (size, fields) = wire_fields frame channels 960 (length frame.payload) in
      rw made (
        size,
        fields
            ∙ rw
                (
                  from_be-to_be_bytes 8 (frame.rtp_time / 960) (omega arith),
                  from_be-low_half frame.rtp_time,
                  from_be-to_be_bytes 2 960 (omega arith),
                  from_be-to_be_bytes 2 (length frame.payload) (omega arith),
                  from_be-to_be_bytes 8 frame.capture_timestamp_ns (omega arith),
                  from_be-to_be_bytes 8 (map_or frame.output_generation 0 generation_id)
                      (omega arith),
                )
                refl,
      )
