-- ===== src/Audio/OpusWorker/Session.antt =====
-- The body of the thread of `spawn_opus_encoder`: frames come in until the sender is gone, go
-- through the packetizer to the encoder, and a last partial packet is padded.
pub mod Total
pub mod Published
use connectors.Base.{
  ℕ, suc, not, ◌||◌, Option, none, some, List, [], ◌∷◌, if◌then◌else◌, ◌==◌, map_option, length,
  wrapping_add, Result, ok, err,
}
use connectors.Audio.Packetizer.{
  PcmPacketizer, PcmPacketizerBegin, PcmPacketizerError, option_eq, new, begin_frame,
  complete_packet, pad_tail,
}
use connectors.Audio.Stream.{Fed, done, stopped, feed}
use connectors.Audio.OpusWorker.World.{World, EncodableFrame, EncodedDeliveryPolicy}
use connectors.Audio.OpusWorker.Worker.{EncoderWorker, Worker, is_cancelled, encode_and_deliver}

-- The variables of the thread between two frames.
pub record Thread (F Generation Encoder : Type 0) : Type 0 where
  pub worker : EncoderWorker Generation Encoder
  pub packetizer : PcmPacketizer F
  pub packet_output : Option Generation

-- After a frame: go on, or the thread has returned.
pub data Next (F Generation Encoder : Type 0) : Type 0 where
  goes_on : Thread F Generation Encoder → Next F Generation Encoder
  returned : EncoderWorker Generation Encoder → Next F Generation Encoder
  out_of_fuel : Next F Generation Encoder

module _ {F Generation Encoder : Type 0} (world : World F Generation Encoder)
    (policy : EncodedDeliveryPolicy) (channels : ℕ) where
  abbrev count_error : Worker world → Worker world
  count_error w = record w {
    counters = record (w.counters) {
      opus_encode_errors = wrapping_add w.counters.opus_encode_errors 1;
    };
  }

  abbrev count_cancelled : Worker world → Worker world
  count_cancelled w = record w {
    counters = record (w.counters) {
      cancelled_output_frames = wrapping_add w.counters.cancelled_output_frames 1;
    };
  }

  abbrev count_boundary : PcmPacketizerBegin → Worker world → Worker world
  count_boundary boundary w = record w {
    counters = record (w.counters) {
      normalization_partial_samples_discarded =
          wrapping_add w.counters.normalization_partial_samples_discarded
            boundary.discontinuity_discarded_samples;
      cancelled_output_samples =
          wrapping_add w.counters.cancelled_output_samples
            boundary.cancelled_output_discarded_samples;
    };
  }

  -- The generation that the packet under assembly belongs to after a boundary.
  abbrev pub packet_output_after :
      PcmPacketizer F → Option Generation → Option Generation → Option Generation
  packet_output_after packetizer current generation =
      if option_eq packetizer.output_generation_id (map_option world.generation_id current)
      then current
      else generation

  abbrev pub after_feed : Option Generation → Fed F (Worker world) → Next F Generation Encoder
  after_feed output (done packetizer w) =
      goes_on (record { worker = w; packetizer = packetizer; packet_output = output })
  after_feed output (stopped w) = returned w
  after_feed output Fed.out_of_fuel = out_of_fuel

  -- The inner loop gets one round for each sample, and one to end.
  feed_frame :
      EncodableFrame F Generation
      → Option Generation
      → PcmPacketizer F
      → Worker world
      → Next F Generation Encoder
  feed_frame frame output packetizer w = after_feed output (
      feed (encode_and_deliver world policy output) (suc (length frame.samples)) frame.samples
        frame.capture_timestamp_ns 0 packetizer w)

  accept_frame :
      EncodableFrame F Generation
      → Thread F Generation Encoder
      → Result PcmPacketizerError (PcmPacketizer F × PcmPacketizerBegin)
      → Next F Generation Encoder
  unfolding feed_frame
  accept_frame frame t (err e) = goes_on (record t { worker = count_error t.worker })
  accept_frame frame t (ok (packetizer, boundary)) =
      feed_frame frame (packet_output_after packetizer t.packet_output frame.output_generation)
        packetizer (count_boundary boundary t.worker)

  -- One round of `while let Ok(frame) = frame_rx.recv()`.
  unfoldable pub handle_frame :
      EncodableFrame F Generation → Thread F Generation Encoder → Next F Generation Encoder
  unfolding accept_frame
  handle_frame frame t =
      let moment = t.worker.moment in
      let w = record (t.worker) { moment = suc moment } in
      if not (frame.sample_rate_hz == 48_000) || not (frame.channels == channels)
      then goes_on (record t { worker = count_error t.worker })
      else if is_cancelled world moment frame.output_generation
      then goes_on (record t { worker = count_cancelled w })
      else accept_frame frame (record t { worker = w })
          (begin_frame t.packetizer frame.sequence_number (length frame.samples)
            (map_option world.generation_id frame.output_generation))

  unfoldable pub handle_frames :
      List (EncodableFrame F Generation) → Thread F Generation Encoder → Next F Generation Encoder
  handle_frames [] t = goes_on t
  handle_frames (frame ∷ rest) t = elim (handle_frame frame t) [
    | goes_on u ↦ handle_frames rest u
    | returned w ↦ returned w
    | out_of_fuel ↦ out_of_fuel
  ]

  abbrev count_padding : ℕ → Worker world → Worker world
  count_padding padding w = record w {
    counters = record (w.counters) {
      normalization_tail_padding_samples_total =
          wrapping_add w.counters.normalization_tail_padding_samples_total padding;
    };
  }

  deliver_tail : Option Generation → Worker world → Option (List F × ℕ) → Worker world
  deliver_tail output w none = w
  deliver_tail output w (some (packet, timestamp)) =
      (encode_and_deliver world policy output w packet timestamp).0

  -- What runs when the sender is gone.
  unfoldable pub finish : F → Thread F Generation Encoder → Worker world
  unfolding deliver_tail
  finish silence t =
      let (p, padded) = pad_tail silence t.packetizer in
      elim padded [
        | none ↦ t.worker
        | some padding ↦
            deliver_tail t.packet_output (count_padding padding t.worker) (complete_packet p)
      ]

  abbrev end_of : F → Next F Generation Encoder → Option (Worker world)
  end_of silence (goes_on t) = some (finish silence t)
  end_of silence (returned w) = some w
  end_of silence out_of_fuel = none

  -- The whole thread, from a worker that was created; `none` if a loop ran out of fuel.
  unfoldable pub run_thread :
      ℕ → F → Worker world → List (EncodableFrame F Generation) → Option (Worker world)
  run_thread opus_frame_samples silence w frames =
      elim (new opus_frame_samples silence 48_000 channels) [
        | err e ↦ some (count_error w)
        | ok packetizer ↦ end_of silence (
            handle_frames frames
              (record { worker = w; packetizer = packetizer; packet_output = none }))
      ]
