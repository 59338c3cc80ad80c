-- ===== src/Runtime/Feeder.antt =====
-- The feeder thread of a bus (`NativePreparedRelayPublishTransport::run` of runtime.rs): it moves frames
-- from the endpoint's receiver to the encoder's bounded channel, and drops what does not fit.
-- Each question that it asks has a moment of its own, so that other threads may act between any two.
pub mod Accounting
pub mod Stops
use connectors.Base.{
  ℕ, zero, suc, ◌+◌, ◌*◌, ◌/◌, min, max, Bool, true, false, ◌&&◌, ◌||◌, Option, none, some, List,
  [], ◌∷◌, ◌++◌, ◌==◌, if◌then◌else◌, saturating_add, saturating_mul, wrapping_add,
}
use connectors.Audio.OpusWorker.World.{TrySend, accepted, full, disconnected}

-- `EndpointAudioFrame`, as far as the feeder reads it; `samples` is the number of samples.
pub record AudioFrame : Type 0 where
  pub samples : ℕ
  pub channels : ℕ
  pub timestamp_ns : ℕ
  pub sequence : ℕ

pub record Surroundings : Type 0 where
  pub is_stopped : ℕ → Bool
  pub is_abort_requested : ℕ → Bool
  pub is_shutting_down : ℕ → Bool
  pub try_recv : ℕ → Option AudioFrame
  pub try_send : ℕ → TrySend
  pub is_paused : ℕ → Bool

-- `capture_end_ns` and `input_drops` are this bus's counters of the ingress's delivery state, which
-- exists if the transport can recover; `received` counts the context's `record_frame_received`.
pub record Feeding : Type 0 where
  pub has_delivery : Bool
  pub received : ℕ
  pub forwarded : List AudioFrame
  pub capture_end_ns : ℕ
  pub input_drops : ℕ
  pub ingress_queue_drops_total : ℕ
  pub moment : ℕ

pub data FeederEnd : Type 0 where
  returned panicked out_of_fuel : FeederEnd

abbrev pub nanoseconds_per_second : ℕ
nanoseconds_per_second = 1_000_000_000

-- The capture time at which the frame's last sample ends.
unfoldable pub capture_end : AudioFrame → ℕ
capture_end frame =
    saturating_add frame.timestamp_ns
      (saturating_mul (frame.samples / frame.channels) nanoseconds_per_second / 48_000)

module _ (around : Surroundings) where
  -- `frame_tx.try_send(frame)`.
  unfoldable pub offer : AudioFrame → Feeding → Feeding × Option FeederEnd
  offer frame f =
      let t = f.moment in
      let asked : Feeding = record f { moment = suc t } in
      elim (around.try_send t) [
        | accepted ↦ (record asked { forwarded = f.forwarded ++ frame ∷ [] }, none)
        | full ↦ (
          record asked { ingress_queue_drops_total = wrapping_add f.ingress_queue_drops_total 1 },
          none,
        )
        | disconnected ↦ (asked, some returned)
      ]

  -- A frame that has been received. A frame without channels divides by zero.
  unfoldable pub handle : AudioFrame → Feeding → Feeding × Option FeederEnd
  unfolding offer capture_end
  handle frame f =
      let t = f.moment in
      let ended : Feeding = record f {
        capture_end_ns = max f.capture_end_ns (capture_end frame);
        moment = suc t;
      } in
      if f.has_delivery
      then if frame.channels == 0
        then (f, some panicked)
        else if around.is_paused t
        then (record ended { input_drops = wrapping_add f.input_drops 1 }, none)
        else offer frame ended
      else offer frame f

  -- One turn of the loop: `none` goes on.
  unfoldable pub turn : Feeding → Feeding × Option FeederEnd
  unfolding handle
  turn f =
      let t = f.moment in
      if around.is_stopped t || around.is_abort_requested (1 + t)
      then (record f { moment = 2 + t }, some returned)
      else elim (around.try_recv (2 + t)) [
        | none ↦ (
          record f { moment = 4 + t },
          if around.is_shutting_down (3 + t) then some returned else none,
        )
        | some frame ↦ handle frame (record f { received = suc f.received; moment = 3 + t })
      ]

  unfoldable pub feed : ℕ → Feeding → Feeding × FeederEnd
  unfolding turn
  feed zero f = (f, out_of_fuel)
  feed (suc fuel) f = elim (turn f).1 [ some end ↦ ((turn f).0, end) | none ↦ feed fuel (turn f).0 ]
