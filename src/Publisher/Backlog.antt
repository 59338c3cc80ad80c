-- ===== src/Publisher/Backlog.antt =====
-- `PublisherBacklogPolicy` and `try_recv_frame` of rtc/publisher.rs. The senders of the channel run
-- beside the loop: before each attempt to receive, which is a moment, they may have sent frames.
pub mod Received
pub mod Taken
pub mod Ends
use connectors.Base.{
  ℕ, zero, suc, Bool, true, false, Option, none, some, List, [], ◌∷◌, ◌++◌, Result, ok, err,
  wrapping_add, if◌then◌else◌,
}

pub data PublisherBacklogPolicy : Type 0 where
  preserve : PublisherBacklogPolicy
  drop_stale : PublisherBacklogPolicy

pub data TryRecvError : Type 0 where
  empty : TryRecvError
  disconnected : TryRecvError

pub record Channel (Frame : Type 0) : Type 0 where
  pub queue : List Frame
  pub moment : ℕ

pub record Senders (Frame : Type 0) : Type 0 where
  pub sends : ℕ → List Frame
  pub is_connected : ℕ → Bool

module _ {Frame : Type 0} (senders : Senders Frame) where
  abbrev pub receive : ℕ → List Frame → Channel Frame × Result TryRecvError Frame
  receive t [] = (
    record { queue = []; moment = suc t },
    err (if senders.is_connected t then empty else disconnected),
  )
  receive t (frame ∷ rest) = (record { queue = rest; moment = suc t }, ok frame)

  -- `Receiver::try_recv`: an error only if the channel is empty.
  unfoldable pub try_recv : Channel Frame → Channel Frame × Result TryRecvError Frame
  try_recv channel = receive channel.moment (channel.queue ++ senders.sends channel.moment)

  -- The loop over stale frames; without fuel it has no result.
  unfoldable pub receive_freshest :
      ℕ → Frame → ℕ → Channel Frame → Option (Channel Frame × (Frame × ℕ))
  receive_freshest zero freshest stale_drops channel = none
  receive_freshest (suc fuel) freshest stale_drops channel =
      let attempt = try_recv channel in
      elim attempt.1 [
        | ok next ↦ receive_freshest fuel next (wrapping_add stale_drops 1) attempt.0
        | err problem ↦ some (attempt.0, (freshest, stale_drops))
      ]

  abbrev pub select :
      PublisherBacklogPolicy → ℕ → Frame → Channel Frame → Option (Channel Frame × (Frame × ℕ))
  select preserve fuel frame channel = some (channel, (frame, 0))
  select drop_stale fuel frame channel = receive_freshest fuel frame 0 channel

  unfoldable pub try_recv_frame :
      PublisherBacklogPolicy
      → ℕ
      → Channel Frame
      → Result TryRecvError (Option (Channel Frame × (Frame × ℕ)))
  try_recv_frame policy fuel channel =
      let attempt = try_recv channel in
      elim attempt.1 [
        | ok frame ↦ ok (select policy fuel frame attempt.0)
        | err problem ↦ err problem
      ]
