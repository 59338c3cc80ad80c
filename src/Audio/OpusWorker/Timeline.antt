-- ===== src/Audio/OpusWorker/Timeline.antt =====
-- The RTP clock of the encoded frames: one step of the clock for each encoded packet, whether or not
-- the packet reaches the channel.
use native.Mathlib.Nat.{add-mod_right}
use connectors.Base.{
  ℕ, ◌+◌, ◌%◌, ◌≤◌, ◌<◌, ◌≡◌, ◌∙◌, ◌⊎◌, inl, inr, Option, List, [], ◌∷◌, arith, saturating_add,
  u64_max, ltb, ltb→lt, Bool-cases, false,
}
use connectors.Audio.OpusWorker.World.{World, EncodedAudioFrame, EncodedDeliveryPolicy}
use connectors.Audio.OpusWorker.Worker.{EncoderWorker, deliver_encoded_frame, encode_and_deliver}

-- The frames (newest first) begin at multiples of the step, each a step or more after the one before
-- it, and end by `bound`.
abbrev pub Timed : {G : Type 0} → ℕ → ℕ → List (EncodedAudioFrame G) → Type 0
Timed step bound [] = Unit
Timed step bound (f ∷ fs) =
    (f.rtp_time + step ≤ bound) × (f.rtp_time % step ≡ 0) × Timed step f.rtp_time fs

-- The clock has saturated, or it is aligned and the frames are timed.
abbrev pub IsTimed : {G E : Type 0} → EncoderWorker G E → Type 0
IsTimed w =
    (0 < w.rtp_step_samples)
    × ((u64_max ≤ w.rtp_sample_count)
        ⊎ ((w.rtp_sample_count % w.rtp_step_samples ≡ 0)
            × Timed w.rtp_step_samples w.rtp_sample_count w.sent))

Timed-mono :
    {G : Type 0} (step a b : ℕ) (fs : List (EncodedAudioFrame G))
    → a ≤ b
    → Timed step a fs
    → Timed step b fs
Timed-mono step a b [] h t = tt
Timed-mono step a b (f ∷ fs) h t = (omega arith, t.1, t.2)

-- What one call did to the clock and to the channel.
abbrev Advances : {G E : Type 0} → EncoderWorker G E → EncoderWorker G E → Type 0
Advances {G} w w' =
    (w'.rtp_step_samples ≡ w.rtp_step_samples)
    × (((w'.sent ≡ w.sent) × (w'.rtp_sample_count ≡ w.rtp_sample_count))
        ⊎ ((w'.rtp_sample_count ≡ saturating_add w.rtp_sample_count w.rtp_step_samples)
            × ((w'.sent ≡ w.sent)
                ⊎ ((f : EncodedAudioFrame G) × (w'.sent ≡ f ∷ w.sent)
                    × (f.rtp_time ≡ w.rtp_sample_count)))))

-- The next multiple of the step.
aligned_step : (count step : ℕ) → count % step ≡ 0 → (count + step) % step ≡ 0
aligned_step count step h = add-mod_right count step ∙ h

not_ltb→le : (a b : ℕ) → ltb a b ≡ false → b ≤ a
not_ltb→le a b h = ground arith

Advances-IsTimed :
    {G E : Type 0} (w w' : EncoderWorker G E) → Advances w w' → IsTimed w → IsTimed w'
Advances-IsTimed w w' (same, inl (sent, count)) t = rw (same, sent, count) t
Advances-IsTimed w w' (same, inr (count, inl sent)) (pos, inl over) =
    rw (same, count) (pos, inl (omega arith))
Advances-IsTimed w w' (same, inr (count, inr sent)) (pos, inl over) =
    rw (same, count) (pos, inl (omega arith))
Advances-IsTimed {G} {E} w w' (same, inr (count, sending)) (pos, inr (aligned, timed)) =
    elim (Bool-cases (ltb (w.rtp_sample_count + w.rtp_step_samples) u64_max)) [
      | inl below ↦
          let less = ltb→lt (w.rtp_sample_count + w.rtp_step_samples) u64_max below in
          let exact : w'.rtp_sample_count ≡ w.rtp_sample_count + w.rtp_step_samples = omega arith in
          rw (same, exact)
            (
              pos,
              inr (aligned_step w.rtp_sample_count w.rtp_step_samples aligned, sent_timed sending),
            )
      | inr reached ↦
          let least = not_ltb→le (w.rtp_sample_count + w.rtp_step_samples) u64_max reached in
          rw (same, count) (pos, inl (omega arith))
    ]
  where
    sent_timed :
        (w'.sent ≡ w.sent)
          ⊎ ((f : EncodedAudioFrame G) × (w'.sent ≡ f ∷ w.sent) × (f.rtp_time ≡ w.rtp_sample_count))
        → Timed w.rtp_step_samples (w.rtp_sample_count + w.rtp_step_samples) w'.sent
    sent_timed (inl sent) =
        rw sent (Timed-mono w.rtp_step_samples w.rtp_sample_count _ w.sent (omega arith) timed)
    sent_timed (inr (f, sent, start)) = rw (sent, start) (omega arith, aligned, timed)

module _ {F G E : Type 0} (world : World F G E) (policy : EncodedDeliveryPolicy) where
  deliver-Advances :
      (frame : EncodedAudioFrame G) (w : EncoderWorker G E)
      → let w' = (deliver_encoded_frame world policy frame w).0 in
        (w'.rtp_step_samples ≡ w.rtp_step_samples)
        × (w'.rtp_sample_count ≡ w.rtp_sample_count)
        × ((w'.sent ≡ w.sent) ⊎ (w'.sent ≡ frame ∷ w.sent))
  unfolding deliver_encoded_frame
  deliver-Advances frame w = ground arith

  encode-Advances :
      (generation : Option G) (w : EncoderWorker G E) (samples : List F) (timestamp : ℕ)
      → Advances w (encode_and_deliver world policy generation w samples timestamp).0
  unfolding encode_and_deliver
  encode-Advances generation w samples timestamp = ground arith

  -- Every packet, delivered or not, keeps the timeline.
  pub encode-IsTimed :
      (generation : Option G) (w : EncoderWorker G E) (samples : List F) (timestamp : ℕ)
      → IsTimed w
      → IsTimed (encode_and_deliver world policy generation w samples timestamp).0
  encode-IsTimed generation w samples timestamp =
      Advances-IsTimed w (encode_and_deliver world policy generation w samples timestamp).0
        (encode-Advances generation w samples timestamp)
