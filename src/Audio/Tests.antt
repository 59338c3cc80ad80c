-- ===== src/Audio/Tests.antt =====
-- Runs of the packetizer and of the encoder thread at concrete inputs (relay/src/audio).
use connectors.Base.{
  ℕ, suc, ◌+◌, ◌%◌, ◌≡◌, ◌⊎◌, refl, inr, Bool, true, none, some, List, [], ◌∷◌, ◌++◌, ok, arith,
  replicate, u64_mod,
}
use connectors.Audio.Packetizer.{PcmPacketizer, begin_frame, pad_tail}
use connectors.Audio.Packetizer.Bounds.{IsValid}
use connectors.Audio.Packetizer.Boundary.{begin_frame_accounts}
use connectors.Audio.Packetizer.Pending.{pending, pending-pad_tail}
use connectors.Audio.Stream.{feed}
use connectors.Audio.Stream.Lossless.{Delivers, feed-Delivers}
use connectors.Audio.OpusWorker.World.{
  Float32, World, accepted, EncodableFrame, drop_newest, default_counters,
}
use connectors.Audio.OpusWorker.Worker.{EncoderWorker, encode_and_deliver}
use connectors.Audio.OpusWorker.Accounting.{accounted, encode_accounts}
use connectors.Audio.OpusWorker.Timeline.{IsTimed}
use connectors.Audio.OpusWorker.Session.{run_thread}
use connectors.Audio.OpusWorker.Session.Published.{run_thread-IsTimed}

-- One sample is pending; a packet has four.
abbrev held : PcmPacketizer ℕ
held = record {
  samples = 5 ∷ 0 ∷ 0 ∷ 0 ∷ [];
  written = 1;
  packet_samples = 4;
  channels = 2;
  packet_timestamp_ns = 10;
  expected_sequence_number = some 3;
  output_generation_id = none;
}

held-IsValid : IsValid 2 held
held-IsValid = record { array = refl; layout = inr refl; packet = refl; within = omega arith }

-- A sink that counts packets.
abbrev counted : ℕ → List ℕ → ℕ → ℕ × Bool
counted n packet timestamp = (suc n, true)

feed-Delivers_example :
    Delivers counted 2 held 0
      (1 ∷ 2 ∷ 3 ∷ 4 ∷ 6 ∷ [])
      (feed counted 6 (1 ∷ 2 ∷ 3 ∷ 4 ∷ 6 ∷ []) 100 0 held 0)
feed-Delivers_example =
    feed-Delivers counted 2 6 (1 ∷ 2 ∷ 3 ∷ 4 ∷ 6 ∷ []) 100 0 held 0 held-IsValid (omega arith)
      (omega arith)

abbrev begun : PcmPacketizer ℕ
begun = record held { written = 0; packet_timestamp_ns = 0; expected_sequence_number = some 8 }

-- A jump in the sequence numbers discards the pending sample.
jumps :
    begin_frame held 7 4 none
    ≡ ok (
      begun,
      record { discontinuity_discarded_samples = 1; cancelled_output_discarded_samples = 0 },
    )
unfolding begin_frame
jumps = refl

begin_frame_accounts_example :
    (begun.written + 1 + 0 ≡ held.written) × ((◌≡◌ {A = ℕ} 1 0) ⊎ (◌≡◌ {A = ℕ} 0 0))
begin_frame_accounts_example = begin_frame_accounts held 7 4 none jumps

pending-pad_tail_example :
    let (q, padding) = pad_tail 0 held in
    (padding ≡ some 3) × (pending q ≡ (5 ∷ []) ++ replicate 3 0) × (q.written ≡ q.packet_samples)
pending-pad_tail_example = pending-pad_tail 2 0 held-IsValid (λ e. omega (arith, e))

-- Samples are numbers, and an encoder keeps them as they are.
abbrev float : Float32 ℕ
float = record {
  zero = 0;
  of_ℕ = λ n. n;
  minus_twenty = 0;
  one_billionth = 0;
  plus = λ a b. a + b;
  times = λ a b. a;
  over = λ a b. a;
  sqrt = λ a. a;
  log10 = λ a. a;
  less = λ a b. true;
  clamp = λ a b c. a;
  round_to_i8 = λ a. a;
}

abbrev world : World ℕ ℕ Unit
world = record {
  float = float;
  generation_id = λ g. g;
  is_active = λ t g. true;
  encode_into = λ e samples. (e, some samples);
  monotonic_ns = λ t. t;
  instant_now = λ t. t;
  send_is_ok = λ t. true;
  try_send = λ t. accepted;
}

abbrev fresh : EncoderWorker ℕ Unit
fresh = record {
  encoder = tt;
  rtp_sample_count = 0;
  rtp_step_samples = 960;
  counters = default_counters;
  sent = [];
  moment = 0;
}

abbrev frame : ℕ → EncodableFrame ℕ ℕ
frame n = record {
  samples = 1 ∷ 2 ∷ 3 ∷ [];
  sequence_number = n;
  sample_rate_hz = 48_000;
  channels = 1;
  capture_timestamp_ns = 100;
  output_generation = some 1;
}

run_thread-IsTimed_example :
    (w' : EncoderWorker ℕ Unit) × (run_thread world drop_newest 1 2 0 fresh (frame 0 ∷ frame 1 ∷ [])
      ≡ some w')
    × IsTimed w'
run_thread-IsTimed_example =
    run_thread-IsTimed world drop_newest 1 2 0 fresh (frame 0 ∷ frame 1 ∷ []) (omega arith)
      (omega arith) refl refl

delivered : (encode_and_deliver world drop_newest (some 1) fresh (1 ∷ 2 ∷ []) 100).1 ≡ true
unfolding encode_and_deliver
delivered = ground arith

encode_accounts_example :
    accounted (encode_and_deliver world drop_newest (some 1) fresh (1 ∷ 2 ∷ []) 100).0
    ≡ (accounted fresh + 1) % u64_mod
encode_accounts_example =
    encode_accounts world drop_newest (some 1) fresh (1 ∷ 2 ∷ []) 100 delivered
