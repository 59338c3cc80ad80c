-- ===== src/Source/Tests.antt =====
-- Runs of a source at concrete inputs (relay/src/source.rs).
use connectors.Base.{
  ℕ, get, ◌≡◌, ◌↔◌, refl, arith, true, false, none, some, [], Result, ok, err, codes, Text,
}
use connectors.Source.Configuration.{RelayAudioBusSourceConfig, validate, seconds}
use connectors.Source.Configuration.Accepted.{IsAccepted, config_validate_iff}
use connectors.Source.Reservations.{Sources, declare, new_observations}
use connectors.Source.Reservations.Declared.{Declares, declare-Declares, reserved_at}
use connectors.Source.Driver.{
  World, Driver, ReceivedOpusFrame, DecodedFrame, decode, emission_or_drop, close, fail_startup,
  arrive, decode_arrived, note_gap, note_return, stamp, delta_ns,
}
use connectors.Source.Driver.Ordered.{InOrder, decode-InOrder}
use connectors.Source.Driver.Closed.{close-close}

abbrev config : RelayAudioBusSourceConfig
config = record {
  relay_url = codes "https://relay.example";
  relay_session_id = codes "session-7";
  bus_id = codes "microphone";
  subscriber_token = codes "token";
  source_generation = 4;
  startup_timeout = seconds 10;
  no_frame_timeout = seconds 6;
  ice_servers = [];
}

config_validate_iff_example : (validate config ≡ ok tt) ↔ IsAccepted config
config_validate_iff_example = config_validate_iff config

abbrev sources : Sources
sources = record { core_session_id = 1; pending = []; poisoned = false; observed = [] }

unreserved : (id : ℕ) → ◌≡◌ {A = Result Text ℕ} (ok 5) (ok id) → reserved_at id sources ≡ none
unfolding get
unreserved id e = refl

declare-Declares_example :
    Declares sources config (declare 1 config (ok 5) (err (codes "port")) sources)
declare-Declares_example = declare-Declares 1 config (ok 5) (err (codes "port")) sources unreserved

-- A decoder that answers 960 samples, and clocks that stand at the moment.
abbrev world : World ℕ
world = record {
  decode_into = λ t payload. ok (960, []);
  monotonic_timestamp_ns = λ t. t;
  instant_now = λ t. t;
  available_slots = λ t. 0;
  build_frame = λ t frame. ok tt;
  build_envelope = λ t frame generation. ok tt;
  poll_frame = λ t. ok none;
  close_connection = λ t. ok tt;
  is_cancelled = λ t. false;
  display = λ n. [];
}

abbrev prepared : Driver ℕ
prepared = record {
  has_session = true;
  config = some config;
  observations = some (new_observations 4);
  connection = some false;
  has_decoder = true;
  pending_frame = none;
  first_rtp_timestamp = none;
  first_local_timestamp_ns = none;
  previous_rtp_timestamp = none;
  next_sequence = 0;
  discontinuity_epoch = 0;
  last_delivery = none;
  seen_frame = false;
  moment = 7;
}

abbrev first : ReceivedOpusFrame
first = record { payload = []; rtp_timestamp = 0; rtp_clock_hz = 48_000; contiguous = true }

abbrev second : ReceivedOpusFrame
second = record { payload = []; rtp_timestamp = 960; rtp_clock_hz = 48_000; contiguous = true }

abbrev decoded : ℕ → ℕ → ℕ → DecodedFrame ℕ
decoded timestamp sequence epoch = record {
  samples = [];
  timestamp_ns = timestamp;
  duration_ns = 20_000_000;
  sequence_number = sequence;
  discontinuity_epoch = epoch;
}

abbrev after_first : Driver ℕ
after_first = (decode world first prepared).0

first_frame : decode world first prepared ≡ (after_first, ok (decoded 8 0 0))
unfolding decode decode_arrived arrive note_gap note_return stamp delta_ns
first_frame = refl

-- The pool has no slot, so the first frame is dropped and the second one begins an epoch.
abbrev after_drop : Driver ℕ
after_drop = (emission_or_drop world (decoded 8 0 0) after_first).0

next_frame :
    decode world second after_drop
    ≡ ((decode world second after_drop).0, ok (decoded 20_000_008 1 1))
unfolding decode decode_arrived arrive note_gap note_return stamp delta_ns emission_or_drop
next_frame = refl

decode-InOrder_example : InOrder world first second (decoded 8 0 0) (decoded 20_000_008 1 1)
decode-InOrder_example =
    decode-InOrder world first second (decoded 8 0 0) (decoded 20_000_008 1 1) prepared after_first
      (decode world second after_drop).0 (omega arith) first_frame next_frame refl

close-close_example :
    (close world (close world prepared).0 ≡ ((close world prepared).0, ok tt))
    × (close world (fail_startup world (codes "refused") prepared).0
        ≡ ((fail_startup world (codes "refused") prepared).0, ok tt))
close-close_example = close-close world prepared (codes "refused")
