-- ===== src/Audio/Packetizer/Bounds.antt =====
-- The representation invariant of the packetizer: every write stays inside the embedded array.
use connectors.Base.{
  ℕ, ◌-◌, ◌*◌, ◌≤◌, min, ◌≡◌, ◌⊎◌, Option, List, arith, length, take, replicate, length-take,
  length-replicate, length-copy_into, ok,
}
use connectors.Audio.Packetizer.{
  PcmPacketizer, PcmPacketizerBegin, new, begin_frame, push, finish_packet, pad_tail,
}

pub record IsValid {A : Type 0} (opus_frame_samples : ℕ) (p : PcmPacketizer A) : Type 0 where
  pub array : length p.samples ≡ opus_frame_samples * 2
  pub layout : (p.channels ≡ 1) ⊎ (p.channels ≡ 2)
  pub packet : p.packet_samples ≡ opus_frame_samples * p.channels
  pub within : p.written ≤ p.packet_samples

module _ {A : Type 0} (n : ℕ) where
  pub packet-le-array : {p : PcmPacketizer A} → IsValid n p → p.packet_samples ≤ length p.samples
  packet-le-array {p} v = ground arith

  pub new-IsValid :
      (silence : A) (rate channels : ℕ) {p : PcmPacketizer A}
      → new n silence rate channels ≡ ok p
      → IsValid n p
  unfolding new
  new-IsValid silence rate channels e = ground (arith, length-replicate (n * 2) silence)

  pub begin_frame-IsValid :
      (sequence count : ℕ) (generation : Option ℕ) {p q : PcmPacketizer A} {b : PcmPacketizerBegin}
      → IsValid n p
      → begin_frame p sequence count generation ≡ ok (q, b)
      → IsValid n q
  unfolding begin_frame
  begin_frame-IsValid sequence count generation {p} v e = ground arith

  pub push-IsValid :
      (input : List A) (timestamp offset : ℕ) {p : PcmPacketizer A}
      → IsValid n p
      → IsValid n (push p input timestamp offset).0
  unfolding push
  push-IsValid input timestamp offset {p} v = ground (
    arith,
    packet-le-array v,
    length-take (min (length input) (p.packet_samples - p.written)) input,
    length-copy_into p.samples p.written
        (take (min (length input) (p.packet_samples - p.written)) input),
  )

  pub finish_packet-IsValid : {p : PcmPacketizer A} → IsValid n p → IsValid n (finish_packet p)
  unfolding finish_packet
  finish_packet-IsValid v = ground arith

  pub pad_tail-IsValid :
      (silence : A) {p : PcmPacketizer A} → IsValid n p → IsValid n (pad_tail silence p).0
  unfolding pad_tail
  pad_tail-IsValid silence {p} v = ground (
    arith,
    packet-le-array v,
    length-replicate (p.packet_samples - p.written) silence,
    length-copy_into p.samples p.written (replicate (p.packet_samples - p.written) silence),
  )
