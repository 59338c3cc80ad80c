-- ===== src/Gateway/Tests.antt =====
-- Runs of the gateway at concrete inputs (relay/src/rtc/gateway.rs): one stream whose peer closes, and
-- whose reattachment meets a READY with a higher generation.
use connectors.Base.{
  ◌≢◌, ℕ, ◌*◌, ◌≡◌, refl, true, false, none, some, List, [], ◌∷◌, All, length, ok, codes, arith,
  if◌then◌else◌, ltb, ◌↔◌,
}
use connectors.Control.Handle.{PublisherCredential}
use connectors.Control.Renewal.{created}
use connectors.Control.Tests.{route}
use connectors.Audio.OpusWorker.World.{EncodedAudioFrame, default_counters}
use connectors.Gateway.Packet.{wire, to_be_bytes, encode_packet}
use connectors.Gateway.Packet.Decoding.{
  IsSendable, read_packet, encode_packet-read, encode_packet_iff,
}
use connectors.Gateway.Ingress.{out_of_fuel, World, closed, text, empty}
use connectors.Gateway.Triple.{Triple}
use connectors.Gateway.Recovery.{tunnel, wait}
use connectors.Gateway.Recovery.Ends.{wait-terminates}
use connectors.Gateway.Recovery.Keeps.{IsSound, Above}
use connectors.Gateway.Publishing.{initial, IngressStream, reattach, run_with_recovery}
use connectors.Gateway.Publishing.Fenced.{
  Answered, IsHalted, IsSoundGroup, reattach-Triple, run_with_recovery-IsSound,
}

abbrev encoded : EncodedAudioFrame ℕ
encoded = record {
  payload = 248 ∷ 255 ∷ 254 ∷ [];
  wallclock = 0;
  rtp_time = 1_920;
  duration_samples = 960;
  audio_level = none;
  capture_timestamp_ns = 99;
  capture_age_ns = 0;
  output_generation = none;
}

abbrev packet : List ℕ
packet =
    80 ∷ 75 ∷ 83 ∷ 79 ∷ 1 ∷ 2 ∷ 0 ∷ 0 ∷ 0 ∷ 0 ∷ 0 ∷ 0 ∷ 0 ∷ 0 ∷ 0 ∷ 2 ∷ 0 ∷ 0 ∷ 7 ∷ 128 ∷ 3 ∷ 192
    ∷ 0 ∷ 3 ∷ 0 ∷ 0 ∷ 0 ∷ 0 ∷ 0 ∷ 0 ∷ 0 ∷ 99 ∷ 0 ∷ 0 ∷ 0 ∷ 0 ∷ 0 ∷ 0 ∷ 0 ∷ 0 ∷ 248 ∷ 255 ∷ 254 ∷ []

packed : encode_packet (λ g. g) encoded 2 ≡ ok packet
unfolding encode_packet to_be_bytes
packed = refl

encode_packet_iff_example :
    (encode_packet (λ g. g) encoded 2 ≡ ok packet)
    ↔ (IsSendable (λ g. g) encoded 2 × (packet ≡ wire (λ g. g) encoded 2 960 3))
encode_packet_iff_example = encode_packet_iff (λ g. g) encoded 2 packet

encode_packet-read_example :
    (length packet ≡ 43)
    × (read_packet packet ≡ record {
      magic = b'P' ∷ b'K' ∷ b'S' ∷ b'O' ∷ [];
      version = 1;
      channels = 2;
      sequence = 2;
      sample_time = 1_920;
      duration = 960;
      payload_length = 3;
      capture_timestamp_ns = 99;
      output_generation = 0;
      payload = 248 ∷ 255 ∷ 254 ∷ [];
    })
encode_packet-read_example =
    encode_packet-read (λ g. g) encoded 2 packet (omega arith) (omega arith) (omega arith) packed

-- The clock gives 50 ms to each question; the control is never renewed.
abbrev world : World ℕ ℕ
world = record {
  now = λ t. t * 50_000_000;
  control = λ t. created route 60_000_000_000 1;
  is_stop_requested = λ t. false;
  is_abort_requested = λ t. ltb 60 t;
  connect = λ t c deadline. ok tt;
  parse_ready =
      λ t. some (record { kind = codes "READY"; bus_id = codes "mix"; source_generation = 5 });
  read = λ t. if ltb t 6 then closed none else text [];
  write = λ t. ok tt;
  flush = λ t. ok tt;
  try_recv = λ t. empty;
  is_active = λ t g. true;
  generation_id = λ g. g;
  capture_end_ns = λ index t. 10;
  input_drops = λ index t. 0;
  configurations = route ∷ [];
}

abbrev streams : List IngressStream
streams =
    record {
      connection = record { channels = 2; source_generation = 3 };
      counters = default_counters;
    }
    ∷ []

abbrev held : PublisherCredential ℕ
held = record { token = 7; valid_until = 60_000_000_000; revision = 1 }

wait-terminates_example : (wait world 20 10 (initial world streams (some held) 0)).1 ≢ out_of_fuel
wait-terminates_example =
    wait-terminates world (λ t. omega arith) 20 10 (initial world streams (some held) 0)
      (omega arith)

run_with_recovery-IsSound_example :
    All IsSound (run_with_recovery world 20 10 streams (some held) 0).0.active
run_with_recovery-IsSound_example = run_with_recovery-IsSound world 20 10 streams (some held) 0

reattach-Triple_example :
    Triple
      (λ g. IsSoundGroup world g × Above (2 ∷ []) g.active)
      (reattach world 20 held tunnel)
      (Answered world (2 ∷ []))
      (IsHalted world (2 ∷ []))
reattach-Triple_example = reattach-Triple world (2 ∷ []) 20 held tunnel
