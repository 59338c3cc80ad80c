-- ===== src/Audio/Stream.antt =====
-- The inner loop of the encoder worker (relay/src/audio/opus_worker.rs, `spawn_opus_encoder`):
-- the samples of one frame go through the packetizer, and each complete packet to a sink, which
-- may stop the worker. `feed` takes fuel; one round for each sample is enough.

pub mod Lossless
use connectors.Base.{ℕ, zero, suc, ◌+◌, ltb, if◌then◌else◌, Bool, none, some, List, drop, length}
use connectors.Audio.Packetizer.{PcmPacketizer, push, complete_packet, finish_packet}

-- How the loop over one frame ends: all samples are taken, the sink stopped the worker, or the
-- fuel ran out.
pub data Fed (A S : Type 0) : Type 0 where
  done : PcmPacketizer A → S → Fed A S
  stopped : S → Fed A S
  out_of_fuel : Fed A S

module _ {A S : Type 0} (sink : S → List A → ℕ → S × Bool) where
  -- `if let Some(packet) = complete_packet() { if !deliver { return } finish_packet() }`.
  abbrev pub flush : PcmPacketizer A → S → (PcmPacketizer A → S → Fed A S) → Fed A S
  flush p s next = elim (complete_packet p) [
    | none ↦ next p s
    | some (packet, timestamp) ↦
        (let (s', alive) = sink s packet timestamp in
          let rest = next (finish_packet p) s' in if alive then rest else stopped s')
  ]

  -- `while offset < samples.len() { offset += push(&samples[offset..], ..); … }`.
  unfoldable pub feed : ℕ → List A → ℕ → ℕ → PcmPacketizer A → S → Fed A S
  feed zero samples timestamp offset p s = out_of_fuel
  feed (suc fuel) samples timestamp offset p s =
      let (q, copied) = push p (drop offset samples) timestamp offset in
      let rest = flush q s (λ r t. feed fuel samples timestamp (offset + copied) r t) in
      if ltb offset (length samples) then rest else done p s
