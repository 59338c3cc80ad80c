-- ===== src/Gateway/Sending.antt =====
-- `send_until`, `send_frame` and `poll_stream`: what one stream does with its socket. The loop over
-- `flush` takes fuel.
pub mod Keeps
use connectors.Base.{
  ℕ, zero, suc, ◌+◌, ◌-◌, ◌*◌, min, ◌≡◌, Bool, true, false, not, ◌&&◌, ◌||◌, Option, none, some,
  List, [], ◌∷◌, ◌++◌, if◌then◌else◌, is_some_and, map_or, ltb, leb, ◌==◌, length, wrapping_add,
  saturating_add, Result, ok, err,
}
use connectors.Control.Handle.{PublisherCredential}
use connectors.Audio.OpusWorker.World.{EncoderCounters, EncodedAudioFrame}
use connectors.Gateway.Failures.{
  IngressError, ingress, other, credential, protocol, SocketError, would_block, timed_out,
  classify_socket_error, classify_close,
}
use connectors.Gateway.Packet.{encode_packet}
use connectors.Gateway.Ingress.{
  World, Group, Run, Outcome, IngressConnection, ActiveIngress, PublishStreamStats, Read, closed,
  ping_or_pong, other_message, text, failed_read, Received, arrived, empty, disconnected_channel,
  ◌>>=◌, ◌>>◌, return, throw, diverge, ask, modify, get, throw_if, stream_at, modify_stream,
  attempt, panicked,
}

-- 200 ms.
abbrev pub max_frame_age : ℕ
max_frame_age = 200_000_000

abbrev pub is_blocked : SocketError → Bool
is_blocked would_block = true
is_blocked error = false

abbrev pub is_idle : SocketError → Bool
is_idle would_block = true
is_idle timed_out = true
is_idle error = false

-- `statistics` with one more Opus packet lost to recovery.
abbrev pub with_opus_drop : ActiveIngress → ActiveIngress
with_opus_drop s = record s {
  statistics = record s.statistics {
    ingress_recovery_opus_drops = saturating_add s.statistics.ingress_recovery_opus_drops 1;
  };
}

abbrev pub with_sent : ℕ → ActiveIngress → ActiveIngress
with_sent bytes s = record s {
  statistics = record s.statistics {
    ingress_frames_sent = saturating_add s.statistics.ingress_frames_sent 1;
    ingress_payload_bytes_sent = saturating_add s.statistics.ingress_payload_bytes_sent bytes;
  };
}

abbrev pub with_cancelled : ActiveIngress → ActiveIngress
with_cancelled s = record s {
  counters = record s.counters {
    cancelled_output_frames = wrapping_add s.counters.cancelled_output_frames 1;
  };
}

abbrev pub with_stale : ActiveIngress → ActiveIngress
with_stale s = record s {
  counters = record s.counters {
    publisher_stale_drops = wrapping_add s.counters.publisher_stale_drops 1;
  };
}

module _ {Secret Generation : Type 0} (world : World Secret Generation) where
  -- The closure `valid` of `send_until`.
  unfoldable pub is_still_valid : Option (PublisherCredential Secret) → Run Secret Bool
  is_still_valid none = return true
  is_still_valid (some k) = do
    gone ← ask (λ t. (world.control t).is_revoked)
    if gone then return false else do
      revision ← ask (λ t. (world.control t).published_revision)
      if not (revision == k.revision)
          then return false
          else do now ← ask world.now; return (ltb now k.valid_until)

  abbrev pub require_valid : Option (PublisherCredential Secret) → Run Secret (Unit {0})
  require_valid recovery = do
    valid ← is_still_valid recovery
    throw_if (not valid) (ingress credential)

  unfoldable pub flush_until : ℕ → ℕ → Option (PublisherCredential Secret) → Run Secret (Unit {0})
  unfolding is_still_valid
  flush_until zero deadline recovery = diverge
  flush_until (suc fuel) deadline recovery = do
    require_valid recovery
    flushed ← ask world.flush
    elim flushed [
      | ok done ↦ return tt
      | err error ↦
          if not (is_blocked error) then throw (ingress (classify_socket_error error)) else do
            now ← ask world.now
            throw_if (leb deadline now) other
            flush_until fuel deadline recovery
    ]

  -- `message` is what the packet adds to `written`: nothing for a close frame.
  unfoldable pub send_until :
      ℕ → List (ℕ × List ℕ) → ℕ → Option (PublisherCredential Secret) → Run Secret (Unit {0})
  unfolding is_still_valid flush_until
  send_until fuel message deadline recovery = do
    require_valid recovery
    now ← ask world.now
    throw_if (leb deadline now) other
    modify (λ g. record g { written = message ++ g.written })
    queued ← ask world.write
    elim queued [
      | ok done ↦ flush_until fuel deadline recovery
      | err error ↦
          if is_blocked error
          then flush_until fuel deadline recovery
          else throw (ingress (classify_socket_error error))
    ]

  unfoldable pub transmit :
      ℕ
      → ℕ
      → EncodedAudioFrame Generation
      → Option (PublisherCredential Secret)
      → Run Secret (Unit {0})
  unfolding send_until
  transmit fuel index frame recovery = do
    stream ← stream_at index
    elim stream.connection [
      | none ↦ throw (ingress protocol)
      | some connection ↦ elim (encode_packet world.generation_id frame connection.channels) [
        | err refused ↦ throw (ingress protocol)
        | ok packet ↦ do
          now ← ask world.now
          latest ← ask world.now
          sent ← attempt (
              send_until fuel ((connection.source_generation, packet) ∷ [])
                (min (now + max_frame_age)
                  (elim recovery [ none ↦ latest + max_frame_age | some k ↦ k.valid_until ]))
                recovery)
          elim sent [
            | err e ↦ modify_stream index with_opus_drop >> throw e
            | ok done ↦ modify_stream index (with_sent (length frame.payload))
          ]
      ]
    ]

  -- The last guard of `send_frame`: the frame is not older than 200 ms.
  unfoldable pub send_if_fresh :
      ℕ
      → ℕ
      → EncodedAudioFrame Generation
      → Option (PublisherCredential Secret)
      → Run Secret (Unit {0})
  unfolding transmit
  send_if_fresh fuel index frame recovery = do
    now ← ask world.now
    if ltb max_frame_age (now - frame.wallclock)
        then modify_stream index with_stale
        else transmit fuel index frame recovery

  abbrev pub is_inactive : EncodedAudioFrame Generation → ℕ → Bool
  is_inactive frame t =
      is_some_and frame.output_generation (λ output. not (world.is_active t output))

  abbrev pub is_before_cutoff : ActiveIngress → EncodedAudioFrame Generation → Bool
  is_before_cutoff stream frame =
      is_some_and stream.not_before_capture_ns (λ cutoff. ltb frame.capture_timestamp_ns cutoff)

  unfoldable pub send_frame :
      ℕ
      → ℕ
      → EncodedAudioFrame Generation
      → Option (PublisherCredential Secret)
      → Run Secret (Unit {0})
  unfolding send_if_fresh
  send_frame fuel index frame recovery = do
    stream ← stream_at index
    cancelled ← ask (is_inactive frame)
    if cancelled
        then modify_stream index with_cancelled
        else if is_before_cutoff stream frame
        then modify_stream index with_opus_drop
        else send_if_fresh fuel index frame recovery

  -- What arrived on the socket: nothing that matters, or a failure.
  abbrev pub heard : Read → Run Secret (Unit {0})
  heard (closed code) = throw (ingress (classify_close code))
  heard ping_or_pong = return tt
  heard other_message = throw (ingress protocol)
  heard (text message) = throw (ingress protocol)
  heard (failed_read error) =
      if is_idle error then return tt else throw (ingress (classify_socket_error error))

  unfoldable pub poll_stream : ℕ → ℕ → Run Secret Bool
  unfolding send_frame
  poll_stream fuel index = do
    stream ← stream_at index
    if stream.disconnected then return false else elim stream.connection [
      | none ↦ throw (ingress protocol)
      | some connection ↦ do
        message ← ask world.read
        heard message
        received ← ask world.try_recv
        recovery ← get (λ g. g.credential)
        elim received [
          | arrived encoded ↦ send_frame fuel index encoded recovery >> return true
          | disconnected_channel ↦
              modify_stream index (λ s. record s { disconnected = true }) >> return true
          | empty ↦ return false
        ]
    ]
