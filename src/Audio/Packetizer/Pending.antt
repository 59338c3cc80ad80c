-- ===== src/Audio/Packetizer/Pending.antt =====
-- What the packetizer holds: the samples of the packet under assembly, as a list.
use connectors.Base.{
  ℕ, ◌+◌, ◌-◌, ◌<◌, min, ◌≡◌, ◌≢◌, refl, subst, inl, inr, none, some, List, ◌++◌, ◌==◌, copy_into,
  arith, length, take, replicate, length-take, length-replicate, take-copy_into, Bool-cases,
}
use connectors.Audio.Packetizer.{PcmPacketizer, push, complete_packet, pad_tail}
use connectors.Audio.Packetizer.Bounds.{IsValid, packet-le-array}

-- The part of the packet that is already assembled.
abbrev pub pending : {A : Type 0} → PcmPacketizer A → List A
pending p = take p.written p.samples

module _ {A : Type 0} (n : ℕ) where
  -- The number of samples that a push takes.
  pub copied-push :
      (input : List A) (timestamp offset : ℕ) (p : PcmPacketizer A)
      → (push p input timestamp offset).1 ≡ min (length input) (p.packet_samples - p.written)
  unfolding push
  copied-push input timestamp offset p = refl

  pub pending-push :
      (input : List A) (timestamp offset : ℕ) {p : PcmPacketizer A}
      → IsValid n p
      → let (q, copied) = push p input timestamp offset in
        pending q ≡ pending p ++ take copied input
  unfolding push
  pending-push input timestamp offset {p} v =
      subst (λ k. take (p.written + k) (copy_into p.samples p.written head) ≡ pending p ++ head)
        size (take-copy_into p.samples p.written head (omega (arith, size, packet-le-array n v)))
    where
      copied : ℕ
      copied = min (length input) (p.packet_samples - p.written)

      head : List A
      head = take copied input

      size : length head ≡ copied
      size = omega (arith, length-take copied input)

  -- A packet is complete exactly if it has its full size, and is what is pending.
  pub complete_packet-pending :
      (p : PcmPacketizer A)
      → p.written ≡ p.packet_samples
      → complete_packet p ≡ some (pending p, p.packet_timestamp_ns)
  unfolding complete_packet
  complete_packet-pending p e = ground arith

  pub complete_packet-none :
      (p : PcmPacketizer A) → p.written < p.packet_samples → complete_packet p ≡ none
  unfolding complete_packet
  complete_packet-none p h = ground arith

  pub length-pending : {p : PcmPacketizer A} → IsValid n p → length (pending p) ≡ p.written
  length-pending {p} v = omega (arith, length-take p.written p.samples, packet-le-array n v)

  -- A started packet of a valid packetizer is filled up with silence: the reported padding is what was
  -- missing, it stands behind what was pending, and the packet is then complete.
  pub pending-pad_tail :
      (silence : A) {p : PcmPacketizer A}
      → IsValid n p
      → p.written ≢ 0
      → let (q, padding) = pad_tail silence p in
        (padding ≡ some (p.packet_samples - p.written))
        × (pending q ≡ pending p ++ replicate (p.packet_samples - p.written) silence)
        × (q.written ≡ q.packet_samples)
  unfolding pad_tail
  pending-pad_tail silence {p} v h = elim (Bool-cases (p.written == 0)) [
    | inl e ↦ absurd (ground arith)
    | inr e ↦ rw e (refl, padded, refl)
  ]
    where
      padding : ℕ
      padding = p.packet_samples - p.written

      fill : List A
      fill = replicate padding silence

      size : p.written + length fill ≡ p.packet_samples
      size = omega (arith, length-replicate padding silence)

      padded : take p.packet_samples (copy_into p.samples p.written fill) ≡ pending p ++ fill
      padded =
          subst (λ k. take k (copy_into p.samples p.written fill) ≡ pending p ++ fill) size
            (take-copy_into p.samples p.written fill (omega (arith, size, packet-le-array n v)))
