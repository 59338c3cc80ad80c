-- ===== src/Audio/Packetizer/Boundary.antt =====
-- What a frame boundary does: `PcmPacketizer::begin_frame` on every branch.
use connectors.Base.{
  ℕ, ◌+◌, ◌%◌, ◌≡◌, ◌≢◌, ◌⊎◌, Option, some, false, arith, saturating_add, ok, err,
}
use connectors.Audio.Packetizer.{
  PcmPacketizer, PcmPacketizerBegin, misaligned_input, sequence_changed, output_changed,
  begin_frame,
}
use connectors.Audio.Packetizer.Pending.{pending}

module _ {A : Type 0} (p : PcmPacketizer A) (sequence count : ℕ) (generation : Option ℕ) where
  -- A frame that does not divide into channels is refused, whatever else changed.
  pub begin_frame_misaligned :
      count % p.channels ≢ 0
      → begin_frame p sequence count generation ≡ err (misaligned_input count p.channels)
  unfolding begin_frame
  begin_frame_misaligned h = ground arith

  -- When `begin_frame` accepts a frame, the samples that stay pending and those that it reports as
  -- discarded are together those that were pending, and it reports at most one of the two reasons.
  pub begin_frame_accounts :
      {q : PcmPacketizer A} {b : PcmPacketizerBegin}
      → begin_frame p sequence count generation ≡ ok (q, b)
      → (q.written + b.discontinuity_discarded_samples + b.cancelled_output_discarded_samples
          ≡ p.written)
        × ((b.discontinuity_discarded_samples ≡ 0) ⊎ (b.cancelled_output_discarded_samples ≡ 0))
  unfolding begin_frame
  begin_frame_accounts e = ground arith

  -- The next frame of the same output continues the packet under assembly.
  pub begin_frame_continues :
      {q : PcmPacketizer A} {b : PcmPacketizerBegin}
      → sequence_changed p sequence ≡ false
      → output_changed p generation ≡ false
      → begin_frame p sequence count generation ≡ ok (q, b)
      → (pending q ≡ pending p) × (q.packet_timestamp_ns ≡ p.packet_timestamp_ns)
  unfolding begin_frame
  begin_frame_continues s o e = ground arith

  -- After a boundary the packetizer belongs to the new frame's output and expects its successor.
  pub begin_frame_expects :
      {q : PcmPacketizer A} {b : PcmPacketizerBegin}
      → begin_frame p sequence count generation ≡ ok (q, b)
      → (q.expected_sequence_number ≡ some (saturating_add sequence 1))
        × (q.output_generation_id ≡ generation)
        × (q.packet_samples ≡ p.packet_samples)
        × (q.channels ≡ p.channels)
  unfolding begin_frame
  begin_frame_expects e = ground arith
