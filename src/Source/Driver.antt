-- ===== src/Source/Driver.antt =====
-- `RelayAudioBusSourceDriver` (source.rs). What it asks of its surroundings (the handshake, the
-- subscriber's connection, the decoder, the pool and Core's constructors, the clocks) has a moment of
-- its own. Its observations are those of its reservation, which only the driver writes.
-- An error is `SourceDriverError::Failed` with its message; `display` writes a number in decimal.
pub mod Ordered
pub mod Closed
use connectors.Base.{
  ℕ, zero, suc, ◌+◌, ◌-◌, ◌*◌, ◌/◌, min, Bool, true, false, not, ◌&&◌, ◌||◌, Option, none, some,
  List, [], ◌++◌, ◌==◌, ltb, leb, is_some_and, is_some, map_option, map_or, Text, codes, Result, ok,
  err, if◌then◌else◌, u64_max, saturating_add, wrapping_add,
}
use connectors.Source.Configuration.{RelayAudioBusSourceConfig}
use connectors.Source.Reservations.{ObservationState}

pub record ReceivedOpusFrame : Type 0 where
  pub payload : List ℕ
  pub rtp_timestamp : ℕ
  pub rtp_clock_hz : ℕ
  pub contiguous : Bool

pub record DecodedFrame (Sample : Type 0) : Type 0 where
  pub samples : List Sample
  pub timestamp_ns : ℕ
  pub duration_ns : ℕ
  pub sequence_number : ℕ
  pub discontinuity_epoch : ℕ

-- `pending_frame` and the fields of the time line; `connection` is the subscriber's `closed`.
pub record Driver (Sample : Type 0) : Type 0 where
  pub has_session : Bool
  pub config : Option RelayAudioBusSourceConfig
  pub observations : Option ObservationState
  pub connection : Option Bool
  pub has_decoder : Bool
  pub pending_frame : Option (DecodedFrame Sample)
  pub first_rtp_timestamp : Option ℕ
  pub first_local_timestamp_ns : Option ℕ
  pub previous_rtp_timestamp : Option ℕ
  pub next_sequence : ℕ
  pub discontinuity_epoch : ℕ
  pub last_delivery : Option ℕ
  pub seen_frame : Bool
  pub moment : ℕ

-- `decode_into` answers the number of samples and the samples; a clock rate is not zero.
pub record World (Sample : Type 0) : Type 0 where
  pub decode_into : ℕ → List ℕ → Result Text (ℕ × List Sample)
  pub monotonic_timestamp_ns : ℕ → ℕ
  pub instant_now : ℕ → ℕ
  pub available_slots : ℕ → ℕ
  -- The output's identity, the pool's buffer and Core's frame; then its lineage and timing.
  pub build_frame : ℕ → DecodedFrame Sample → Result Text (Unit {0})
  pub build_envelope : ℕ → DecodedFrame Sample → ℕ → Result Text (Unit {0})
  pub poll_frame : ℕ → Result Text (Option ReceivedOpusFrame)
  pub close_connection : ℕ → Result Text (Unit {0})
  pub is_cancelled : ℕ → Bool
  pub display : ℕ → Text

abbrev pub max_packet_samples : ℕ
max_packet_samples = 960

abbrev pub sample_rate_hz : ℕ
sample_rate_hz = 48_000

abbrev pub get_or : Option ℕ → ℕ → ℕ
get_or none d = d
get_or (some a) d = a

-- `fetch_add(1)` on one of the observations.
abbrev pub count : ℕ → ℕ
count n = wrapping_add n 1

-- `u64::try_from(ticks * 10^9 / clock_hz).unwrap_or(u64::MAX)`, computed with 128 bits.
unfoldable pub delta_ns : ℕ → ℕ → ℕ
delta_ns ticks clock_hz = min (ticks * 1_000_000_000 / clock_hz) u64_max

module _ {Sample : Type 0} where
  abbrev pub observe : (ObservationState → ObservationState) → Driver Sample → Driver Sample
  observe f d = record d { observations = map_option f d.observations }

  -- A frame that is not contiguous starts a new epoch, unless it is the first.
  unfoldable pub note_gap : ReceivedOpusFrame → Driver Sample → Driver Sample
  note_gap encoded d =
      if d.seen_frame && not encoded.contiguous
      then observe
          (λ o. record o { noncontiguous_frames_total = count o.noncontiguous_frames_total })
          (record d { discontinuity_epoch = saturating_add d.discontinuity_epoch 1 })
      else d

  -- A time stamp before the previous one starts a new epoch and a new anchor.
  unfoldable pub note_return : ReceivedOpusFrame → Driver Sample → Driver Sample
  note_return encoded d =
      if is_some_and d.previous_rtp_timestamp (λ previous. ltb encoded.rtp_timestamp previous)
      then record d {
        discontinuity_epoch = saturating_add d.discontinuity_epoch 1;
        first_rtp_timestamp = none;
        first_local_timestamp_ns = none;
      }
      else d

  unfoldable pub arrive : ReceivedOpusFrame → Driver Sample → Driver Sample
  unfolding note_gap note_return
  arrive encoded d =
      record (note_return encoded (
        note_gap encoded
          (observe (λ o. record o { received_frames_total = count o.received_frames_total }) d))) {
            previous_rtp_timestamp = some encoded.rtp_timestamp;
            seen_frame = true;
          }

-- `closed.swap(true)`.
abbrev pub close_once : ObservationState → ObservationState
close_once o =
    if o.closed then o else record o { closed = true; closed_total = count o.closed_total }

module _ {Sample : Type 0} where
  abbrev pub observe_runtime_failure : Driver Sample → Driver Sample
  observe_runtime_failure d =
      observe (λ o. record o { runtime_failures_total = count o.runtime_failures_total }) d

  unfoldable pub observe_closed : Driver Sample → Driver Sample
  observe_closed d = observe close_once d

module _ {Sample : Type 0} (world : World Sample) where
  abbrev pub Answer : Type 0 → Type 0
  Answer A = Driver Sample × Result Text A

  -- A frame that has been decoded gets its place on the time line.
  unfoldable pub stamp :
      ReceivedOpusFrame → ℕ → List Sample → Driver Sample → Answer (DecodedFrame Sample)
  unfolding delta_ns
  stamp encoded decoded_samples samples d =
      let now_ns = world.monotonic_timestamp_ns d.moment in
      let first_rtp = get_or d.first_rtp_timestamp encoded.rtp_timestamp in
      let first_local = get_or d.first_local_timestamp_ns now_ns in
      (
        record (observe (λ o. record o { latest_frame_at_ns = now_ns }) d) {
          first_rtp_timestamp = some first_rtp;
          first_local_timestamp_ns = some first_local;
          next_sequence = saturating_add d.next_sequence 1;
          last_delivery = some (world.instant_now (1 + d.moment));
          moment = 2 + d.moment;
        },
        ok (record {
          samples = samples;
          timestamp_ns =
              saturating_add first_local
                (delta_ns (encoded.rtp_timestamp - first_rtp) encoded.rtp_clock_hz);
          duration_ns = delta_ns decoded_samples sample_rate_hz;
          sequence_number = d.next_sequence;
          discontinuity_epoch = d.discontinuity_epoch;
        }),
      )

  abbrev pub count_decode_failure : Driver Sample → Driver Sample
  count_decode_failure d =
      observe (λ o. record o { decode_failures_total = count o.decode_failures_total }) d

  -- What follows the arrival of a frame.
  unfoldable pub decode_arrived : ReceivedOpusFrame → Driver Sample → Answer (DecodedFrame Sample)
  unfolding stamp
  decode_arrived encoded d =
      let asked : Driver Sample = record d { moment = suc d.moment } in
      if d.has_decoder
      then elim (world.decode_into d.moment encoded.payload) [
        | err e ↦ (count_decode_failure asked, err e)
        | ok decoded ↦
            if decoded.0 == max_packet_samples then stamp encoded decoded.0 decoded.1 asked else (
              count_decode_failure asked,
              err (
                  codes "unsupported decoded Opus frame size: "
                  ++ world.display decoded.0
                  ++ codes " mono samples; expected the qualified 20 ms / 960-sample profile"),
            )
      ]
      else (d, err (codes "Opus decoder is not prepared"))

  unfoldable pub decode : ReceivedOpusFrame → Driver Sample → Answer (DecodedFrame Sample)
  unfolding arrive decode_arrived
  decode encoded d =
      if is_some d.observations
      then decode_arrived encoded (arrive encoded d)
      else (d, err (codes "source observations are absent"))

  -- The generation of the source stands for the envelope, which Core builds of it and the frame.
  unfoldable pub emission : DecodedFrame Sample → Driver Sample → Answer (DecodedFrame Sample × ℕ)
  emission decoded d =
      let asked : Driver Sample = record d { moment = 2 + d.moment } in
      if not d.has_session
      then (d, err (codes "Session context is absent"))
      else elim (world.build_frame d.moment decoded) [
        | err e ↦ (asked, err e)
        | ok frame ↦ elim d.config [
          | none ↦ (asked, err (codes "source config is absent"))
          | some config ↦
              elim (world.build_envelope (1 + d.moment) decoded config.source_generation) [
                | err e ↦ (asked, err e)
                | ok envelope ↦
                    if is_some d.observations
                    then (
                      observe
                          (λ o. record o { emitted_frames_total = count o.emitted_frames_total })
                          asked,
                      ok (decoded, config.source_generation),
                    )
                    else (asked, err (codes "source observations are absent"))
              ]
        ]
      ]

  unfoldable pub wrapped : {A : Type 0} → Answer A → Answer (Option A)
  wrapped (d, err e) = (d, err e)
  wrapped (d, ok a) = (d, ok (some a))

  unfoldable pub emission_or_drop :
      DecodedFrame Sample → Driver Sample → Answer (Option (DecodedFrame Sample × ℕ))
  unfolding emission wrapped
  emission_or_drop decoded d =
      let asked : Driver Sample = record d { moment = suc d.moment } in
      if world.available_slots d.moment == 0
      then (
        observe (λ o. record o { pool_dropped_frames_total = count o.pool_dropped_frames_total })
            (record asked { discontinuity_epoch = saturating_add d.discontinuity_epoch 1 }),
        if is_some d.observations then ok none else err (codes "source observations are absent"),
      )
      else wrapped (emission decoded asked)

  -- `SubscriberConnection::close`: the second time it does nothing.
  unfoldable pub close_connection : Driver Sample → Answer (Unit {0})
  close_connection d = elim d.connection [
    | none ↦ (d, ok tt)
    | some is_closed ↦ if is_closed then (d, ok tt) else (
      record d { connection = some true; moment = suc d.moment },
      world.close_connection d.moment,
    )
  ]

  unfoldable pub close : Driver Sample → Answer (Unit {0})
  unfolding close_connection observe_closed
  close d = (observe_closed (close_connection d).0, (close_connection d).1)

  unfoldable pub fail_startup : Text → Driver Sample → Answer (Unit {0})
  unfolding close_connection observe_closed
  fail_startup message d =
      let counted : Driver Sample =
        observe (λ o. record o { startup_failures_total = count o.startup_failures_total }) d in
      (observe_closed (close_connection counted).0, err message)
