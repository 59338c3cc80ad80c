-- ===== src/Audio/OpusWorker/Worker.antt =====
-- `EncoderWorker`, `deliver_encoded_frame` and `observe_capture_age` of opus_worker.rs.
-- The state joins the worker to what it shares: the counters, the frames that went into the channel
-- (newest first), and the moment of the next question to the world.
use connectors.Base.{
  ℕ, suc, ◌-◌, ◌^◌, Bool, true, false, not, Option, none, some, List, [], ◌∷◌, if◌then◌else◌, ltb,
  ◌==◌, is_some_and, length, min, wrapping_add, saturating_add,
}
use connectors.Audio.OpusWorker.World.{
  Float32, TrySend, accepted, full, disconnected, World, EncoderCounters, EncodedAudioFrame,
  EncodedDeliveryPolicy, preserve_with_backpressure, drop_newest, capture_age_budget_ns,
}

pub record EncoderWorker (Generation Encoder : Type 0) : Type 0 where
  pub encoder : Encoder
  pub rtp_sample_count : ℕ
  pub rtp_step_samples : ℕ
  pub counters : EncoderCounters
  pub sent : List (EncodedAudioFrame Generation)
  pub moment : ℕ

-- One worker writes `capture_age_max_ns`, so its compare-and-exchange loop stores the maximum.
unfoldable pub observe_capture_age : EncoderCounters → ℕ → EncoderCounters
observe_capture_age c age = if age == 0 then c else record c {
  capture_age_sum_ns = wrapping_add c.capture_age_sum_ns age;
  capture_age_sample_count = wrapping_add c.capture_age_sample_count 1;
  capture_age_max_ns = if ltb c.capture_age_max_ns age then age else c.capture_age_max_ns;
  capture_age_over_budget =
      if ltb capture_age_budget_ns age
      then wrapping_add c.capture_age_over_budget 1
      else c.capture_age_over_budget;
}

module _ {F : Type 0} (float : Float32 F) where
  square_sum : F → List F → F
  square_sum acc [] = acc
  square_sum acc (sample ∷ rest) = square_sum (float.plus acc (float.times sample sample)) rest

  -- The RMS level below full scale in dB, as RFC 6464 has it.
  unfoldable pub audio_level : List F → ℕ
  unfolding square_sum
  audio_level samples =
      let sample_count = min (length samples) (2 ^ 16 - 1) in
      let rms =
        if sample_count == 0
        then float.zero
        else float.sqrt (float.over (square_sum float.zero samples) (float.of_ℕ sample_count)) in
      if float.less float.one_billionth rms
      then float.round_to_i8 (
          float.clamp (float.times float.minus_twenty (float.log10 rms)) float.zero
            (float.of_ℕ 127))
      else 127

module _ {F Generation Encoder : Type 0} (world : World F Generation Encoder) where
  abbrev pub Worker : Type 0
  Worker = EncoderWorker Generation Encoder

  abbrev pub Frame : Type 0
  Frame = EncodedAudioFrame Generation

  -- `output_generation.is_some_and(|generation| !generation.is_active())`, asked now.
  abbrev pub is_cancelled : ℕ → Option Generation → Bool
  is_cancelled moment generation = is_some_and generation (λ g. not (world.is_active moment g))

  abbrev count_cancelled : Worker → Worker
  count_cancelled w = record w {
    counters = record (w.counters) {
      cancelled_output_frames = wrapping_add w.counters.cancelled_output_frames 1;
    };
    moment = suc w.moment;
  }

  try_deliver : Frame → Worker → TrySend → Worker × Bool
  try_deliver frame w accepted = (record w { sent = frame ∷ w.sent }, true)
  try_deliver frame w full = (
    record w {
      counters = record (w.counters) {
        encoded_channel_drops = wrapping_add w.counters.encoded_channel_drops 1;
      };
    },
    true,
  )
  try_deliver frame w disconnected = (w, false)

  deliver_live : EncodedDeliveryPolicy → Frame → Worker → Worker × Bool
  unfolding try_deliver
  deliver_live preserve_with_backpressure frame w =
      if world.send_is_ok w.moment
      then (record w { sent = frame ∷ w.sent; moment = suc w.moment }, true)
      else (record w { moment = suc w.moment }, false)
  deliver_live drop_newest frame w =
      try_deliver frame (record w { moment = suc w.moment }) (world.try_send w.moment)

  -- False only when the publisher receiver has disconnected.
  unfoldable pub deliver_encoded_frame : EncodedDeliveryPolicy → Frame → Worker → Worker × Bool
  unfolding deliver_live
  deliver_encoded_frame policy frame w =
      if is_cancelled w.moment frame.output_generation
      then (count_cancelled w, true)
      else deliver_live policy frame (record w { moment = suc w.moment })

  abbrev count_error : Worker → Encoder → Worker
  count_error w encoder = record w {
    encoder = encoder;
    counters = record (w.counters) {
      opus_encode_errors = wrapping_add w.counters.opus_encode_errors 1;
    };
    moment = suc w.moment;
  }

  -- From the encoded payload on: count, take the age, stamp and deliver.
  stamp_and_deliver :
      EncodedDeliveryPolicy
      → List F
      → ℕ
      → Option Generation
      → Worker
      → Encoder
      → List ℕ
      → Worker × Bool
  unfolding deliver_encoded_frame
  stamp_and_deliver policy samples timestamp generation w encoder payload =
      let now = world.monotonic_ns w.moment in
      let age = if ltb 0 timestamp then now - timestamp else 0 in
      let counted = record (w.counters) {
        opus_packets_out = wrapping_add w.counters.opus_packets_out 1;
      } in
      deliver_encoded_frame policy
        (record {
          payload = payload;
          wallclock = world.instant_now (suc w.moment);
          rtp_time = w.rtp_sample_count;
          duration_samples = min w.rtp_step_samples (2 ^ 32 - 1);
          audio_level = some (audio_level world.float samples);
          capture_timestamp_ns = timestamp;
          capture_age_ns = age;
          output_generation = generation;
        })
        (record w {
          encoder = encoder;
          counters = observe_capture_age counted age;
          rtp_sample_count = saturating_add w.rtp_sample_count w.rtp_step_samples;
          moment = suc (suc w.moment);
        })

  encode_live :
      EncodedDeliveryPolicy
      → List F
      → ℕ
      → Option Generation
      → Worker
      → Encoder × Option (List ℕ)
      → Worker × Bool
  unfolding stamp_and_deliver
  encode_live policy samples timestamp generation w (encoder, none) = (count_error w encoder, true)
  encode_live policy samples timestamp generation w (encoder, some payload) =
      stamp_and_deliver policy samples timestamp generation w encoder payload

  unfoldable pub encode_and_deliver :
      EncodedDeliveryPolicy → Option Generation → Worker → List F → ℕ → Worker × Bool
  unfolding encode_live
  encode_and_deliver policy generation w samples timestamp =
      if is_cancelled w.moment generation
      then (count_cancelled w, true)
      else encode_live policy samples timestamp generation (record w { moment = suc w.moment })
          (world.encode_into w.encoder samples)
