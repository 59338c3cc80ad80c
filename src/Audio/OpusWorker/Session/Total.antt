-- ===== src/Audio/OpusWorker/Session/Total.antt =====
-- The encoder thread ends, and keeps whatever each encoded packet keeps.
use connectors.Base.{
  ℕ, suc, ◌<◌, ◌≡◌, refl, inl, inr, Option, none, some, List, [], ◌∷◌, arith, length, map_option,
  Bool-cases, not, ◌||◌, ◌==◌, Result, ok, err,
}
use connectors.Audio.Packetizer.{
  PcmPacketizer, PcmPacketizerBegin, PcmPacketizerError, new, begin_frame, pad_tail,
  complete_packet,
}
use connectors.Audio.Packetizer.Bounds.{IsValid, new-IsValid, begin_frame-IsValid}
use connectors.Audio.Stream.{Fed, done, stopped}
use connectors.Audio.Stream.Lossless.{Preserved, feed-Preserved}
use connectors.Audio.OpusWorker.World.{
  World, EncoderCounters, EncodableFrame, EncodedDeliveryPolicy,
}
use connectors.Audio.OpusWorker.Worker.{EncoderWorker, is_cancelled, encode_and_deliver}
use connectors.Audio.OpusWorker.Session.{
  Thread, Next, goes_on, returned, out_of_fuel, after_feed, packet_output_after, handle_frame,
  handle_frames, finish, run_thread, accept_frame, deliver_tail, count_padding, count_error, end_of,
}

-- A boundary leaves room where there was room.
begin_frame_room :
    {F : Type 0} (p : PcmPacketizer F) (sequence count : ℕ) (generation : Option ℕ)
    {q : PcmPacketizer F} {b : PcmPacketizerBegin}
    → begin_frame p sequence count generation ≡ ok (q, b)
    → p.written < p.packet_samples
    → q.written < q.packet_samples
unfolding begin_frame
begin_frame_room p sequence count generation e room = ground arith

-- A new packetizer has room.
new_room :
    {F : Type 0} (n : ℕ) (silence : F) (rate channels : ℕ) {p : PcmPacketizer F}
    → 0 < n
    → new n silence rate channels ≡ ok p
    → p.written < p.packet_samples
unfolding new
new_room n silence rate channels pos e = grind arith

module _ {F G E : Type 0} (world : World F G E) (policy : EncodedDeliveryPolicy) (channels n : ℕ)
    (P : EncoderWorker G E → Type 0) where
  -- The property speaks of the frames and the RTP clock, and an encoded packet keeps it.
  pub record Keeps : Type 0 where
    pub aside :
        (w : EncoderWorker G E) (counters : EncoderCounters) (moment : ℕ)
        → P w
        → P (record w { counters = counters; moment = moment })
    pub packet :
        (generation : Option G) (w : EncoderWorker G E) (samples : List F) (timestamp : ℕ)
        → P w
        → P (encode_and_deliver world policy generation w samples timestamp).0

  -- Between two frames the packetizer has room.
  abbrev IsReady : Thread F G E → Type 0
  IsReady t =
      IsValid n t.packetizer × (t.packetizer.written < t.packetizer.packet_samples) × P t.worker

  abbrev Good : Next F G E → Type 0
  Good (goes_on t) = IsReady t
  Good (returned w) = P w
  Good out_of_fuel = ⊥

  module _ (keeps : Keeps) where
    after_feed-Good :
        (output : Option G) (fed : Fed F (EncoderWorker G E))
        → Preserved (λ q w. IsValid n q × (q.written < q.packet_samples) × P w) P fed
        → Good (after_feed world policy channels output fed)
    after_feed-Good output (done q w) h = h
    after_feed-Good output (stopped w) h = h
    after_feed-Good output Fed.out_of_fuel h = h

    accept_frame-Good :
        (frame : EncodableFrame F G) (t : Thread F G E)
        (r : Result PcmPacketizerError (PcmPacketizer F × PcmPacketizerBegin))
        → begin_frame t.packetizer frame.sequence_number
            (length frame.samples)
            (map_option world.generation_id frame.output_generation)
          ≡ r
        → IsReady t
        → Good (accept_frame world policy channels frame t r)
    unfolding accept_frame
    accept_frame-Good frame t (err e) begun (v, room, h) = (v, room, keeps.aside t.worker _ _ h)
    accept_frame-Good frame t (ok (q, boundary)) begun (v, room, h) = after_feed-Good output _ (
        feed-Preserved (encode_and_deliver world policy output) P
          (λ w packet timestamp. keeps.packet output w packet timestamp) n frame.samples
          frame.capture_timestamp_ns q _
          (begin_frame-IsValid n frame.sequence_number (length frame.samples) _ v begun)
          (omega (
            arith,
            begin_frame_room t.packetizer frame.sequence_number (length frame.samples) _ begun,
          ))
          (keeps.aside t.worker _ _ h))
      where
        output : Option G
        output = packet_output_after world policy channels q t.packet_output frame.output_generation

    -- Every frame, whatever its format, leaves a thread that is ready for the next, or has returned.
    handle_frame-Good :
        (frame : EncodableFrame F G) (t : Thread F G E)
        → IsReady t
        → Good (handle_frame world policy channels frame t)
    unfolding handle_frame
    handle_frame-Good frame t (v, room, h) =
        elim (Bool-cases
          (not (frame.sample_rate_hz == 48_000) || not (frame.channels == channels))) [
            | inl other ↦ rw other (v, room, keeps.aside t.worker _ _ h)
            | inr fits ↦
                rw fits
                  (elim (Bool-cases (is_cancelled world t.worker.moment frame.output_generation)) [
                    | inl off ↦ rw off (v, room, keeps.aside t.worker _ _ h)
                    | inr on ↦ rw on (
                        accept_frame-Good frame
                          (record t { worker = record (t.worker) { moment = suc t.worker.moment } })
                          (begin_frame t.packetizer frame.sequence_number (length frame.samples)
                            (map_option world.generation_id frame.output_generation))
                          refl (v, room, keeps.aside t.worker _ _ h))
                  ])
          ]

    handle_frames-Good :
        (frames : List (EncodableFrame F G)) (t : Thread F G E)
        → IsReady t
        → Good (handle_frames world policy channels frames t)
    unfolding handle_frames
    handle_frames-Good [] t r = r
    handle_frames-Good (frame ∷ rest) t r =
        onward (handle_frame world policy channels frame t) (handle_frame-Good frame t r)
          (λ u h. handle_frames-Good rest u h)
      where
        onward :
            (next : Next F G E)
            → Good next
            → ((u : Thread F G E) → IsReady u → Good (handle_frames world policy channels rest u))
            → Good (elim next [
              | goes_on u ↦ handle_frames world policy channels rest u
              | returned w ↦ returned w
              | out_of_fuel ↦ out_of_fuel
            ])
        onward (goes_on u) good later = later u good
        onward (returned w) good later = good
        onward out_of_fuel good later = good

    finish-keeps :
        (silence : F) (t : Thread F G E) → P t.worker → P (finish world policy channels silence t)
    unfolding finish deliver_tail
    finish-keeps silence t h =
        at_tail (pad_tail silence t.packetizer).1
          (complete_packet (pad_tail silence t.packetizer).0)
      where
        at_tail :
            (padded : Option ℕ) (packet : Option (List F × ℕ))
            → P (elim padded [
              | none ↦ t.worker
              | some padding ↦
                  deliver_tail world policy channels t.packet_output
                    (count_padding world policy channels padding t.worker)
                    packet
            ])
        at_tail none packet = h
        at_tail (some padding) none = keeps.aside t.worker _ _ h
        at_tail (some padding) (some (samples, timestamp)) =
            keeps.packet t.packet_output _ samples timestamp (keeps.aside t.worker _ _ h)

    -- The thread ends for every sequence of frames, and its worker has the property.
    pub run_thread-keeps :
        (silence : F) (w : EncoderWorker G E) (frames : List (EncodableFrame F G))
        → 0 < n
        → P w
        → (w' : EncoderWorker G E) × (run_thread world policy channels n silence w frames ≡ some w')
          × P w'
    unfolding run_thread
    run_thread-keeps silence w frames pos h = created (new n silence 48_000 channels) refl
      where
        ended :
            (next : Next F G E)
            → Good next
            → (w' : EncoderWorker G E) × (end_of world policy channels silence next ≡ some w')
              × P w'
        ended (goes_on t) (v, room, k) =
            (finish world policy channels silence t, refl, finish-keeps silence t k)
        ended (returned v) k = (v, refl, k)
        ended out_of_fuel k = absurd k

        created :
            (r : Result PcmPacketizerError (PcmPacketizer F))
            → new n silence 48_000 channels ≡ r
            → (w' : EncoderWorker G E) × ((elim r [
              | err e ↦ some (count_error world policy channels w)
              | ok packetizer ↦ end_of world policy channels silence (
                  handle_frames world policy channels frames
                    (record { worker = w; packetizer = packetizer; packet_output = none }))
            ])
                ≡ some w')
              × P w'
        created (err e) made = (count_error world policy channels w, refl, keeps.aside w _ _ h)
        created (ok p) made = ended _ (
            handle_frames-Good frames (record { worker = w; packetizer = p; packet_output = none })
              (
                new-IsValid n silence 48_000 channels made,
                new_room n silence 48_000 channels pos made,
                h,
              ))
