-- ===== src/Audio/OpusWorker/Accounting.antt =====
-- No packet vanishes unseen: what `encode_and_deliver` did with it is counted or sent.
use connectors.Base.{ℕ, ◌+◌, ◌%◌, ◌≡◌, true, Option, List, arith, length, u64_mod}
use connectors.Audio.OpusWorker.World.{World, EncodedAudioFrame, EncodedDeliveryPolicy}
use connectors.Audio.OpusWorker.Worker.{
  EncoderWorker, observe_capture_age, deliver_encoded_frame, encode_and_deliver,
}

-- Packets that are accounted for, modulo the width of the counters.
abbrev pub accounted : {G E : Type 0} → EncoderWorker G E → ℕ
accounted w =
    (w.counters.cancelled_output_frames
      + w.counters.opus_encode_errors
      + w.counters.encoded_channel_drops
      + length w.sent)
    % u64_mod

module _ {F G E : Type 0} (world : World F G E) (policy : EncodedDeliveryPolicy) where
  pub deliver_accounts :
      (frame : EncodedAudioFrame G) (w : EncoderWorker G E)
      → (deliver_encoded_frame world policy frame w).1 ≡ true
      → accounted (deliver_encoded_frame world policy frame w).0 ≡ (accounted w + 1) % u64_mod
  unfolding deliver_encoded_frame
  deliver_accounts frame w alive = ground arith

  -- While the worker goes on, each packet that it is given adds one, modulo 2 ^ 64, to the sum of the
  -- cancelled frames, the encoding errors, the dropped frames and the frames that were sent.
  pub encode_accounts :
      (generation : Option G) (w : EncoderWorker G E) (samples : List F) (timestamp : ℕ)
      → (encode_and_deliver world policy generation w samples timestamp).1 ≡ true
      → accounted (encode_and_deliver world policy generation w samples timestamp).0
        ≡ (accounted w + 1) % u64_mod
  unfolding encode_and_deliver observe_capture_age
  encode_accounts generation w samples timestamp alive = ground arith
