-- ===== src/Audio/OpusWorker/Session/Published.antt =====
-- The frames that an encoder thread hands to the publisher, from its start to its end.
use native.Mathlib.Nat.{zero-mod}
use connectors.Base.{ℕ, ◌<◌, ◌≡◌, inr, some, List, []}
use connectors.Audio.OpusWorker.World.{World, EncodableFrame, EncodedDeliveryPolicy}
use connectors.Audio.OpusWorker.Worker.{EncoderWorker}
use connectors.Audio.OpusWorker.Timeline.{IsTimed, encode-IsTimed}
use connectors.Audio.OpusWorker.Session.{run_thread}
use connectors.Audio.OpusWorker.Session.Total.{Keeps, run_thread-keeps}

module _ {F G E : Type 0} (world : World F G E) (policy : EncodedDeliveryPolicy)
    (channels n : ℕ) where
  IsTimed-Keeps : Keeps world policy channels n IsTimed
  IsTimed-Keeps = record {
    aside = λ w counters moment h. h;
    packet = λ generation w samples timestamp.
        encode-IsTimed world policy generation w samples timestamp;
  }

  -- For every sequence of frames, in any format, the encoder thread ends, and from a fresh worker
  -- (clock at zero, nothing sent) its RTP timestamps are multiples of the step, apart by one step at
  -- least, in the order of sending, unless the clock has saturated.
  pub run_thread-IsTimed :
      (silence : F) (w : EncoderWorker G E) (frames : List (EncodableFrame F G))
      → 0 < n
      → 0 < w.rtp_step_samples
      → w.rtp_sample_count ≡ 0
      → w.sent ≡ []
      → (w' : EncoderWorker G E) × (run_thread world policy channels n silence w frames ≡ some w')
        × IsTimed w'
  run_thread-IsTimed silence w frames pos step start fresh =
      run_thread-keeps world policy channels n IsTimed IsTimed-Keeps silence w frames pos
        (step, inr (rw (start, fresh) (zero-mod w.rtp_step_samples, tt)))
